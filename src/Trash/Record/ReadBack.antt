-- ===== src/Trash/Record/ReadBack.antt =====
-- A written record and its reading, for internal/trash/trash.go.
use shfm.Common.{
  ℕ, ◌≡◌, ◌≢◌, refl, ap, ◌∙◌, true, List, [], ◌∷◌, ◌++◌, Bytes, codes, has_prefix, All, All-append,
  Bool-cases, inl, inr, arith, ◌%◌, ◌/◌,
}
use shfm.Common.Utf8.{Rune, rune1, rune2, rune3, rune4, runes, valid_string}
use shfm.Common.Split.{split_on, split-append, is_free, is_free-All}
use shfm.Trash.Encoding.{
  hex_char, percent_byte, percent_all, is_unreserved, encode_rune, encode_runes, encode_trash_path,
  decode_trash_path,
}
use shfm.Trash.Encoding.RoundTrip.{decode-encode_trash_path}
use shfm.Trash.Record.{newline, fields, info_text, read_line, read_lines, read_info}

abbrev pub IsLine : Bytes → Type 0
IsLine s = All (λ c. c ≢ newline) s

hex_char-ne : (d : ℕ) → hex_char d ≢ newline
unfolding hex_char
hex_char-ne d h = ground arith

percent_all-IsLine : (b : Bytes) → IsLine (percent_all b)
unfolding percent_all percent_byte
percent_all-IsLine [] = tt
percent_all-IsLine (c ∷ b) =
    ((λ e. omega arith), (hex_char-ne (c / 16), (hex_char-ne (c % 16), percent_all-IsLine b)))

unreserved-ne : (c : ℕ) → is_unreserved c ≡ true → c ≢ newline
unfolding is_unreserved
unreserved-ne c h e = ground arith

encode_rune-IsLine : (r : Rune) → IsLine (encode_rune r)
unfolding encode_rune
encode_rune-IsLine (rune1 c) = elim (Bool-cases (is_unreserved c)) [
  | inl e ↦ rw e ((unreserved-ne c e, tt))
  | inr e ↦ rw e (percent_all-IsLine (c ∷ []))
]
encode_rune-IsLine (rune2 a b) = percent_all-IsLine (a ∷ b ∷ [])
encode_rune-IsLine (rune3 a b c) = percent_all-IsLine (a ∷ b ∷ c ∷ [])
encode_rune-IsLine (rune4 a b c d) = percent_all-IsLine (a ∷ b ∷ c ∷ d ∷ [])

encode_runes-IsLine : (rs : List Rune) → IsLine (encode_runes rs)
unfolding encode_runes
encode_runes-IsLine [] = tt
encode_runes-IsLine (r ∷ rs) =
    All-append (λ c. c ≢ newline) (encode_rune r) (encode_runes rs) (encode_rune-IsLine r)
      (encode_runes-IsLine rs)

-- An encoded path is one line, whatever the path holds.
pub encode_trash_path-IsLine : (p : Bytes) → IsLine (encode_trash_path p)
unfolding encode_trash_path
encode_trash_path-IsLine p = encode_runes-IsLine (runes p)

header-IsLine : IsLine (codes "[Trash Info]")
unfolding is_free
header-IsLine = is_free-All newline (codes "[Trash Info]") refl

path-IsLine : (p : Bytes) → IsLine (codes "Path=" ++ encode_trash_path p)
unfolding is_free
path-IsLine p =
    All-append (λ c. c ≢ newline) (codes "Path=") (encode_trash_path p)
      (is_free-All newline (codes "Path=") refl) (encode_trash_path-IsLine p)

module _ (stamp : ℕ → Bytes) (time_of : Bytes → ℕ) where
  date-IsLine : (now : ℕ) → IsLine (stamp now) → IsLine (codes "DeletionDate=" ++ stamp now)
  unfolding is_free
  date-IsLine now h =
      All-append (λ c. c ≢ newline) (codes "DeletionDate=") (stamp now)
        (is_free-All newline (codes "DeletionDate=") refl) h

  split-info_text :
      (p : Bytes) (now : ℕ)
      → IsLine (stamp now)
      → split_on newline (info_text stamp p now)
        ≡ codes "[Trash Info]"
          ∷ (codes "Path=" ++ encode_trash_path p)
          ∷ (codes "DeletionDate=" ++ stamp now)
          ∷ []
          ∷ []
  unfolding info_text split_on
  split-info_text p now h =
      rw
        (split-append newline (codes "[Trash Info]")
          ((codes "Path=" ++ encode_trash_path p)
            ++ newline ∷ ((codes "DeletionDate=" ++ stamp now) ++ newline ∷ []))
          header-IsLine)
        (rw
          (split-append newline (codes "Path=" ++ encode_trash_path p)
            ((codes "DeletionDate=" ++ stamp now) ++ newline ∷ []) (path-IsLine p))
          (rw (split-append newline (codes "DeletionDate=" ++ stamp now) [] (date-IsLine now h))
            refl))

  read-three_lines :
      (p date : Bytes)
      → read_lines time_of
          (codes "[Trash Info]" ∷ (codes "Path=" ++ p) ∷ (codes "DeletionDate=" ++ date) ∷ [] ∷ [])
          (fields [] 0)
        ≡ fields (decode_trash_path p) (time_of date)
  unfolding read_lines read_line has_prefix
  read-three_lines p date = refl

  -- A record says which path was trashed, and when: for a path that is valid UTF-8, and a date
  -- that is written on one line and read back as it was.
  pub read-info_text :
      (p : Bytes) (now : ℕ)
      → valid_string p ≡ true
      → IsLine (stamp now)
      → time_of (stamp now) ≡ now
      → read_info time_of (info_text stamp p now) ≡ fields p now
  unfolding read_info
  read-info_text p now v h t = rw (split-info_text p now h) (
      read-three_lines (encode_trash_path p) (stamp now)
      ∙ ap (λ q. fields q (time_of (stamp now))) (decode-encode_trash_path p v)
      ∙ ap (fields p) t)
