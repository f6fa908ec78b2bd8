-- ===== src/LocalSend/Names/Numbered.antt =====
-- Numbered names, for internal/localsend/names.go.
use shfm.Common.{
  ℕ, ◌+◌, ◌-◌, ◌≤◌, ◌≡◌, refl, Option, some, ◌++◌, Bytes, ltb, leb, length, Bool-cases, inl, inr,
  arith, length-append,
}
use shfm.Common.Int.{pos, sub_ℕ}
use shfm.Common.Utf8.Whole.{cut_valid, length-cut_valid}
use shfm.LocalSend.Names.{
  max_name_bytes, short_extension, cut_base, truncate_name, last_index, extension_at, suffix_of,
  append_to, number_parts, numbered,
}
use shfm.LocalSend.Names.Safe.{short_extension-length}

-- A name, cut to fit.
abbrev Fits : Option Bytes → ℕ → Type 0
Fits o most = (s : Bytes) × (o ≡ some s) × (length s ≤ most)

cut_base-Fits :
    (name ext : Bytes) (most : ℕ) → length ext ≤ most → Fits (cut_base name ext most) most
unfolding cut_base
cut_base-Fits name ext most h =
    let base = cut_valid (most - length ext) name in
    (
      base ++ ext,
      ground arith,
      omega (arith, length-append base ext, length-cut_valid (most - length ext) name),
    )

truncate-Fits : (name : Bytes) (most : ℕ) → 16 ≤ most → Fits (truncate_name name (pos most)) most
unfolding truncate_name
truncate-Fits name most h =
    let i = last_index b'.' name in
    elim (Bool-cases (leb (length name) most)) [
      | inl e ↦ rw e (name, refl, ground arith)
      | inr e ↦ rw e (
          cut_base-Fits name (short_extension name i) most
            (omega (arith, short_extension-length name i)))
    ]

sub_ℕ-pos : (a b : ℕ) → b ≤ a → sub_ℕ a b ≡ pos (a - b)
sub_ℕ-pos a b h = ground arith

append-Fits :
    (suffix ext : Bytes) (o : Option Bytes) (most : ℕ)
    → Fits o most
    → Fits (append_to suffix ext o) (most + (length suffix + length ext))
unfolding append_to
append-Fits suffix ext o most (s, e, h) = (
  s ++ (suffix ++ ext),
  rw e refl,
  omega (arith, length-append s (suffix ++ ext), length-append suffix ext),
)

number_parts-Fits :
    (base ext suffix : Bytes)
    → length suffix + length ext ≤ 239
    → Fits (number_parts (base, ext) suffix) max_name_bytes
unfolding number_parts
number_parts-Fits base ext suffix h =
    let k = length suffix + length ext in
    elim (Bool-cases (ltb max_name_bytes (length base + k))) [
      | inl e ↦
          let (s, q, l) =
            append-Fits suffix ext (truncate_name base (pos (max_name_bytes - k)))
              (max_name_bytes - k) (truncate-Fits base (max_name_bytes - k) (omega arith)) in
          rw e (rw (sub_ℕ-pos max_name_bytes k (omega arith)) (s, q, omega arith))
      | inr e ↦ rw e (
        base ++ (suffix ++ ext),
        refl,
        ground (arith, length-append base (suffix ++ ext), length-append suffix ext),
      )
    ]

-- A numbered name fits a file system's names whatever the name was, where the number and the
-- extension, which are not cut, leave 16 bytes for the rest.
pub numbered-Fits :
    (name : Bytes) (n : ℕ)
    → length (suffix_of n) + length (extension_at name (last_index b'.' name)).1 ≤ 239
    → (s : Bytes) × (numbered name n ≡ some s) × (length s ≤ max_name_bytes)
unfolding numbered
numbered-Fits name n h =
    let (base, ext) = extension_at name (last_index b'.' name) in
    number_parts-Fits base ext (suffix_of n) h
