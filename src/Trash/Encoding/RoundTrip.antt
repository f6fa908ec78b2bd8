-- ===== src/Trash/Encoding/RoundTrip.antt =====
-- Reading a written path, for internal/trash/trash.go.
use shfm.Common.{
  ℕ, ◌+◌, ◌*◌, ◌/◌, ◌%◌, ◌<◌, ◌≡◌, refl, ap, ◌∙◌, true, false, ◌||◌, ◌≢◌, some, List, [], ◌∷◌, ◌++◌,
  append_assoc, Bytes, All, Bool-cases, inl, inr, arith, ◌==◌,
}
use shfm.Common.Utf8.{
  Rune, rune1, rune2, rune3, rune4, bytes_of, is_rune, text_of, runes, runes-AllRunes, text-runes,
  valid_string, bytes_of-small,
}
use shfm.Trash.Encoding.{
  percent, hex_char, hex_value, is_blank, scan_hex, percent_byte, percent_all, is_unreserved,
  encode_rune, encode_runes, encode_trash_path, unit_at, decode_loop, decode_trash_path,
}

hex_value-hex_char : (d : ℕ) → d < 16 → hex_value (hex_char d) ≡ some d
unfolding hex_value hex_char
hex_value-hex_char d h = ground arith

-- a digit is neither a blank nor a sign
hex_char_plain :
    (d : ℕ)
    → ((is_blank (hex_char d) || (hex_char d == b'+')) ≡ false) × ((hex_char d == b'-') ≡ false)
unfolding hex_char is_blank
hex_char_plain d = (ground arith, ground arith)

scan-hex_chars :
    (v w : ℕ) → v < 16 → w < 16 → scan_hex (hex_char v) (hex_char w) ≡ some (v * 16 + w)
unfolding scan_hex
scan-hex_chars v w hv hw =
    let (p, q) = hex_char_plain v in
    rw p (rw q (rw (hex_value-hex_char v hv) (rw (hex_value-hex_char w hw) refl)))

decode-percent_byte :
    (c : ℕ) (s : Bytes) → c < 256 → decode_loop 0 (percent_byte c ++ s) ≡ c ∷ decode_loop 0 s
unfolding decode_loop percent_byte unit_at
decode-percent_byte c s h =
    rw (scan-hex_chars (c / 16) (c % 16) (omega arith) (omega arith))
      (ap (λ v. v ∷ decode_loop 0 s) (omega arith))

decode-percent_all :
    (b s : Bytes) → All (λ c. c < 256) b → decode_loop 0 (percent_all b ++ s) ≡ b ++ decode_loop 0 s
unfolding percent_all
decode-percent_all [] s h = refl
decode-percent_all (c ∷ b) s h =
    rw (append_assoc (percent_byte c) (percent_all b) s) (
      decode-percent_byte c (percent_all b ++ s) h.0 ∙ ap (λ t. c ∷ t) (decode-percent_all b s h.1))

decode_plain : (c : ℕ) (s : Bytes) → c ≢ percent → decode_loop 0 (c ∷ s) ≡ c ∷ decode_loop 0 s
unfolding decode_loop unit_at
decode_plain c [] h = refl
decode_plain c (x ∷ []) h = refl
decode_plain c (x ∷ y ∷ s) h = ground arith

unreserved_plain : (c : ℕ) → is_unreserved c ≡ true → c ≢ percent
unfolding is_unreserved
unreserved_plain c h e = ground arith

decode-encode_rune :
    (r : Rune) (s : Bytes)
    → is_rune r ≡ true
    → decode_loop 0 (encode_rune r ++ s) ≡ bytes_of r ++ decode_loop 0 s
unfolding encode_rune
decode-encode_rune (rune1 c) s h = elim (Bool-cases (is_unreserved c)) [
  | inl e ↦ rw e (decode_plain c s (unreserved_plain c e))
  | inr e ↦ rw e (decode-percent_all (c ∷ []) s (bytes_of-small (rune1 c) h))
]
decode-encode_rune (rune2 a b) s h =
    decode-percent_all (a ∷ b ∷ []) s (bytes_of-small (rune2 a b) h)
decode-encode_rune (rune3 a b c) s h =
    decode-percent_all (a ∷ b ∷ c ∷ []) s (bytes_of-small (rune3 a b c) h)
decode-encode_rune (rune4 a b c d) s h =
    decode-percent_all (a ∷ b ∷ c ∷ d ∷ []) s (bytes_of-small (rune4 a b c d) h)

decode-encode_runes :
    (rs : List Rune) → All (λ r. is_rune r ≡ true) rs → decode_loop 0 (encode_runes rs) ≡ text_of rs
unfolding encode_runes text_of decode_loop
decode-encode_runes [] h = refl
decode-encode_runes (r ∷ rs) h =
    decode-encode_rune r (encode_runes rs) h.0
    ∙ ap (λ t. bytes_of r ++ t) (decode-encode_runes rs h.1)

-- A path that is valid UTF-8 is read back from a record as it was.
pub decode-encode_trash_path :
    (p : Bytes) → valid_string p ≡ true → decode_trash_path (encode_trash_path p) ≡ p
unfolding decode_trash_path encode_trash_path
decode-encode_trash_path p v = decode-encode_runes (runes p) (runes-AllRunes p) ∙ text-runes p v
