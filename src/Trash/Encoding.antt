-- ===== src/Trash/Encoding.antt =====
-- The Path line of a trash record: encodeTrashPath and decodeTrashPath of internal/trash/trash.go.
pub mod RoundTrip
use shfm.Common.{
  ℕ, zero, suc, ◌+◌, ◌-◌, ◌*◌, ◌/◌, ◌%◌, Bool, ◌&&◌, ◌||◌, Option, none, some, List, [], ◌∷◌, ◌++◌,
  Bytes, ◌==◌, ltb, leb, if◌then◌else◌,
}
use shfm.Common.Utf8.{Rune, rune1, rune2, rune3, rune4, bytes_of, runes}

abbrev pub percent : ℕ
percent = b'%'

-- 'A' to 'Z', 'a' to 'z', '0' to '9', and `-_.~/`
unfoldable pub is_unreserved : ℕ → Bool
is_unreserved c =
    leb b'A' c && leb c b'Z'
    || (leb b'a' c && leb c b'z'
        || (leb b'0' c && leb c b'9'
            || (c == b'-' || (c == b'_' || (c == b'.' || (c == b'~' || c == b'/'))))))

-- A digit of `%X`.
unfoldable pub hex_char : ℕ → ℕ
hex_char d = if ltb d 10 then d + 48 else d + 55

-- `%%%02X` of one byte
unfoldable pub percent_byte : ℕ → Bytes
unfolding hex_char
percent_byte c = percent ∷ hex_char (c / 16) ∷ hex_char (c % 16) ∷ []

unfoldable pub percent_all : Bytes → Bytes
unfolding percent_byte
percent_all [] = []
percent_all (c ∷ s) = percent_byte c ++ percent_all s

unfoldable pub encode_rune : Rune → Bytes
unfolding is_unreserved percent_all
encode_rune (rune1 c) = if is_unreserved c then c ∷ [] else percent_all (c ∷ [])
encode_rune r = percent_all (bytes_of r)

unfoldable pub encode_runes : List Rune → Bytes
unfolding encode_rune
encode_runes [] = []
encode_runes (r ∷ rs) = encode_rune r ++ encode_runes rs

unfoldable pub encode_trash_path : Bytes → Bytes
unfolding encode_runes
encode_trash_path p = encode_runes (runes p)

-- A digit as `%X` scans it.
unfoldable pub hex_value : ℕ → Option ℕ
hex_value c =
    if leb b'0' c && leb c b'9'
    then some (c - 48)
    else if leb b'A' c && leb c b'F'
    then some (c - 55)
    else if leb b'a' c && leb c b'f'
    then some (c - 87)
    else none

-- Spaces that a scan skips; a line's end is an error, as is what is no digit.
unfoldable pub is_blank : ℕ → Bool
is_blank c = c == 32 || (c == 9 || (c == 11 || (c == 12 || c == 13)))

-- byte(-v)
negated : Option ℕ → Option ℕ
negated none = none
negated (some v) = some ((256 - v) % 256)

two_digits : ℕ → Option ℕ → Option ℕ
two_digits v none = some v
two_digits v (some w) = some (v * 16 + w)

digits_from : Option ℕ → ℕ → Option ℕ
unfolding two_digits hex_value
digits_from none y = none
digits_from (some v) y = two_digits v (hex_value y)

-- fmt.Sscanf(xy, "%02X", &v), and byte(v): blanks, a sign, then at least one digit.
unfoldable pub scan_hex : ℕ → ℕ → Option ℕ
unfolding hex_value is_blank negated digits_from
scan_hex x y =
    if is_blank x || x == b'+'
    then hex_value y
    else if x == b'-'
    then negated (hex_value y)
    else digits_from (hex_value x) y

-- What the loop writes for the byte it stands on, and how many more bytes it passes.
unit_from : ℕ → Option ℕ → ℕ × ℕ
unit_from c none = (c, 0)
unit_from c (some v) = (v, 2)

unfoldable pub unit_at : ℕ → Bytes → ℕ × ℕ
unfolding unit_from scan_hex
unit_at c (x ∷ y ∷ s) = if c == percent then unit_from c (scan_hex x y) else (c, 0)
unit_at c s = (c, 0)

unfoldable pub decode_loop : ℕ → Bytes → Bytes
unfolding unit_at
decode_loop skip [] = []
decode_loop (suc skip) (c ∷ s) = decode_loop skip s
decode_loop zero (c ∷ s) = let (v, skip) = unit_at c s in v ∷ decode_loop skip s

unfoldable pub decode_trash_path : Bytes → Bytes
unfolding decode_loop
decode_trash_path s = decode_loop 0 s
