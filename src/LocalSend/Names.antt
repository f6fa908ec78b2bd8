-- ===== src/LocalSend/Names.antt =====
-- Names of received files: internal/localsend/names.go. `none` stands for a slice out of range,
-- which panics.
pub mod Plain
pub mod Safe
pub mod Numbered
pub mod Apart
use shfm.Common.{
  ℕ, zero, suc, ◌+◌, ◌-◌, Bool, true, false, ◌&&◌, ◌||◌, not, Option, none, some, List, [], ◌∷◌,
  ◌++◌, Bytes, codes, ◌==◌, ltb, leb, if◌then◌else◌, length, take, drop, bytes_eq,
}
use shfm.Common.Int.{ℤ, pos, negsuc, sub_ℕ}
use shfm.Common.Split.{longer}
use shfm.Common.Decimal.{decimal}
use shfm.Common.Utf8.{
  Rune, rune1, rune2, rune3, rune4, rune_error, bytes_of, runes, text_of, valid_string,
}
use shfm.Common.Trim.{is_space}
use shfm.Common.Utf8.Whole.{cut_valid}

abbrev pub max_name_bytes : ℕ
max_name_bytes = 255

abbrev pub max_depth : ℕ
max_depth = 32

abbrev pub underscore : Rune
underscore = rune1 b'_'

-- unicode.IsControl
unfoldable pub is_control : Rune → Bool
is_control (rune1 c) = ltb c 32 || c == 127
is_control (rune2 a b) = a == 194 && ltb b 160
is_control r = false

-- r == utf8.RuneError
unfoldable pub is_error : Rune → Bool
is_error r = bytes_eq (bytes_of r) (bytes_of rune_error)

unfoldable pub replaced : Rune → Rune
unfolding is_control is_error
replaced r = if is_error r || is_control r then underscore else r

unfoldable pub replace_all : List Rune → List Rune
unfolding replaced
replace_all [] = []
replace_all (r ∷ rs) = replaced r ∷ replace_all rs

-- strings.TrimSpace of it is empty.
unfoldable pub only_spaces : List Rune → Bool
unfolding is_space
only_spaces [] = true
only_spaces (r ∷ rs) = is_space r && only_spaces rs

-- strings.LastIndexByte
or_here : ℕ → ℕ → Option ℕ → Option ℕ
or_here c x none = if x == c then some 0 else none
or_here c x (some i) = some (suc i)

unfoldable pub last_index : ℕ → Bytes → Option ℕ
unfolding or_here
last_index c [] = none
last_index c (x ∷ s) = or_here c x (last_index c s)

-- The extension that a cut keeps: from the last dot, not the first byte, if it is that short.
pub short_extension : Bytes → Option ℕ → Bytes
short_extension name none = []
short_extension name (some i) = if ltb 0 i && leb (length name - i) 16 then drop i name else []

-- base + ext, cut at `most - len(ext)`
cut_base : Bytes → Bytes → ℕ → Option Bytes
unfolding cut_valid
cut_base name ext most =
    if leb (length ext) most then some (cut_valid (most - length ext) name ++ ext) else none

unfoldable pub truncate_name : Bytes → ℤ → Option Bytes
unfolding short_extension cut_base last_index
truncate_name name (negsuc n) = none
truncate_name name (pos most) =
    if leb (length name) most
    then some name
    else cut_base name (short_extension name (last_index b'.' name)) most

-- What a segment is when its runes are replaced; an empty one is dropped.
checked : List Rune → Option Bytes
unfolding only_spaces truncate_name
checked rs =
    if only_spaces rs || (bytes_eq (text_of rs) (codes ".") || bytes_eq (text_of rs) (codes ".."))
    then some []
    else truncate_name (text_of rs) (pos max_name_bytes)

unfoldable pub safe_segment : Bytes → Option Bytes
unfolding checked replace_all
safe_segment seg = checked (replace_all (runes seg))

-- strings.FieldsFunc with '/' and '\\': the pieces between them that are not empty.
unfoldable pub is_separator : ℕ → Bool
is_separator c = c == b'/' || c == b'\\'

unfoldable pub pieces : Bytes → List Bytes
unfolding is_separator
pieces [] = [] ∷ []
pieces (c ∷ s) = let rest = pieces s in if is_separator c then [] ∷ rest else longer c rest

-- A piece that is not empty is kept.
abbrev pub add_piece : Bytes → List Bytes → List Bytes
add_piece [] ws = ws
add_piece (c ∷ w) ws = (c ∷ w) ∷ ws

unfoldable pub kept_pieces : List Bytes → List Bytes
kept_pieces [] = []
kept_pieces (w ∷ ws) = add_piece w (kept_pieces ws)

unfoldable pub fields_func : Bytes → List Bytes
unfolding pieces kept_pieces
fields_func name = kept_pieces (pieces name)

add_segment : Option Bytes → Option (List Bytes) → Option (List Bytes)
add_segment none segs = none
add_segment (some seg) none = none
add_segment (some seg) (some segs) = some (add_piece seg segs)

unfoldable pub safe_segments : List Bytes → Option (List Bytes)
unfolding safe_segment add_segment
safe_segments [] = some []
safe_segments (seg ∷ segs) = add_segment (safe_segment seg) (safe_segments segs)

bounded : List Bytes → List Bytes
bounded [] = codes "untitled" ∷ []
bounded segs = if ltb max_depth (length segs) then drop (length segs - max_depth) segs else segs

bounded_if : Option (List Bytes) → Option (List Bytes)
unfolding bounded
bounded_if none = none
bounded_if (some segs) = some (bounded segs)

unfoldable pub safe_path : Bytes → Option (List Bytes)
unfolding fields_func safe_segments bounded_if
safe_path name = bounded_if (safe_segments (fields_func name))

-- base and ext of `numbered`
unfoldable pub extension_at : Bytes → Option ℕ → Bytes × Bytes
extension_at name none = (name, [])
extension_at name (some i) = if ltb 0 i then (take i name, drop i name) else (name, [])

unfoldable pub suffix_of : ℕ → Bytes
suffix_of n = codes " (" ++ (decimal n ++ codes ")")

append_to : Bytes → Bytes → Option Bytes → Option Bytes
append_to suffix ext none = none
append_to suffix ext (some base) = some (base ++ (suffix ++ ext))

number_parts : Bytes × Bytes → Bytes → Option Bytes
unfolding truncate_name append_to
number_parts (base, ext) suffix =
    if ltb max_name_bytes (length base + (length suffix + length ext))
    then append_to suffix ext
        (truncate_name base (sub_ℕ max_name_bytes (length suffix + length ext)))
    else some (base ++ (suffix ++ ext))

unfoldable pub numbered : Bytes → ℕ → Option Bytes
unfolding last_index extension_at suffix_of number_parts
numbered name n = number_parts (extension_at name (last_index b'.' name)) (suffix_of n)
