-- ===== src/LocalSend/Names/Plain.antt =====
-- The bytes of replaced segments, for internal/localsend/names.go.
use shfm.Common.{
  ℕ, ◌≤◌, ◌≡◌, ◌≢◌, refl, Bool, true, false, ◌||◌, List, [], ◌∷◌, Bytes, All, Bool-cases, inl, inr,
  arith,
}
use shfm.Common.Utf8.{Rune, rune1, rune2, rune3, rune4, bytes_of, is_rune, rune_error}
use shfm.Common.Utf8.Whole.{AllRunes}
use shfm.Common.Utf8.Ranges.{is_rune-IsBig}
use shfm.LocalSend.Names.{is_control, replaced, replace_all, is_error, is_separator, underscore}

-- No byte of a segment is a separator, an ASCII control or a delete.
pub record IsPlain (c : ℕ) : Type 0 where
  pub printable : 32 ≤ c
  pub no_delete : c ≢ 127
  pub no_slash : c ≢ b'/'
  pub no_backslash : c ≢ b'\\'

abbrev pub IsApart : ℕ → Type 0
IsApart c = (c ≢ b'/') × (c ≢ b'\\')

big-IsPlain : (c : ℕ) → 128 ≤ c → IsPlain c
big-IsPlain c h = record {
  printable = omega arith;
  no_delete = λ e. omega arith;
  no_slash = λ e. omega arith;
  no_backslash = λ e. omega arith;
}

rune1-IsPlain : (c : ℕ) → is_control (rune1 c) ≡ false → IsApart c → IsPlain c
unfolding is_control
rune1-IsPlain c h (s, b) = record {
  printable = ground arith;
  no_delete = λ e. ground arith;
  no_slash = s;
  no_backslash = b;
}

abbrev pub AllPlain : Rune → Type 0
AllPlain r = All IsPlain (bytes_of r)

underscore-AllPlain : AllPlain underscore
underscore-AllPlain = (
  record {
    printable = omega arith;
    no_delete = λ e. omega arith;
    no_slash = λ e. omega arith;
    no_backslash = λ e. omega arith;
  },
  tt,
)

rune-AllPlain :
    (r : Rune) → is_rune r ≡ true → All IsApart (bytes_of r) → is_control r ≡ false → AllPlain r
rune-AllPlain (rune1 c) h a e = (rune1-IsPlain c e a.0, tt)
rune-AllPlain (rune2 a b) h k e =
    let (ha, (hb, t)) = is_rune-IsBig (rune2 a b) h in (big-IsPlain a ha, (big-IsPlain b hb, tt))
rune-AllPlain (rune3 a b c) h k e =
    let (ha, (hb, (hc, t))) = is_rune-IsBig (rune3 a b c) h in
    (big-IsPlain a ha, (big-IsPlain b hb, (big-IsPlain c hc, tt)))
rune-AllPlain (rune4 a b c d) h k e =
    let (ha, (hb, (hc, (hd, t)))) = is_rune-IsBig (rune4 a b c d) h in
    (big-IsPlain a ha, (big-IsPlain b hb, (big-IsPlain c hc, (big-IsPlain d hd, tt))))

or_false : (a b : Bool) → (a || b) ≡ false → b ≡ false
or_false true b h = cc
or_false false b h = h

replaced-AllPlain : (r : Rune) → is_rune r ≡ true → All IsApart (bytes_of r) → AllPlain (replaced r)
unfolding replaced
replaced-AllPlain r h a = elim (Bool-cases (is_error r || is_control r)) [
  | inl e ↦ rw e underscore-AllPlain
  | inr e ↦ rw e (rune-AllPlain r h a (or_false (is_error r) (is_control r) e))
]

replaced-IsRune : (r : Rune) → is_rune r ≡ true → is_rune (replaced r) ≡ true
unfolding replaced is_rune
replaced-IsRune r h = elim (Bool-cases (is_error r || is_control r)) [
  | inl e ↦ rw e refl
  | inr e ↦ rw e h
]

pub replace_all-AllRunes : (rs : List Rune) → AllRunes rs → AllRunes (replace_all rs)
unfolding replace_all
replace_all-AllRunes [] h = tt
replace_all-AllRunes (r ∷ rs) h = (replaced-IsRune r h.0, replace_all-AllRunes rs h.1)

pub replace_all-AllPlain :
    (rs : List Rune)
    → AllRunes rs
    → All (λ r. All IsApart (bytes_of r)) rs
    → All AllPlain (replace_all rs)
unfolding replace_all
replace_all-AllPlain [] h a = tt
replace_all-AllPlain (r ∷ rs) h a = (replaced-AllPlain r h.0 a.0, replace_all-AllPlain rs h.1 a.1)

apart : (c : ℕ) → 93 ≤ c → IsApart c
apart c h = ((λ e. omega arith), (λ e. omega arith))

pub error-IsApart : All IsApart (bytes_of rune_error)
error-IsApart = (apart 239 (omega arith), (apart 191 (omega arith), (apart 189 (omega arith), tt)))

pub separator-IsApart : (c : ℕ) → is_separator c ≡ false → IsApart c
unfolding is_separator
separator-IsApart c h = ((λ e. ground arith), (λ e. ground arith))

letter-IsPlain : (c : ℕ) → 97 ≤ c → c ≤ 122 → IsPlain c
letter-IsPlain c h k = record {
  printable = omega arith;
  no_delete = λ e. omega arith;
  no_slash = λ e. omega arith;
  no_backslash = λ e. omega arith;
}

pub letters-IsPlain : (s : Bytes) → All (λ c. (97 ≤ c) × (c ≤ 122)) s → All IsPlain s
letters-IsPlain [] h = tt
letters-IsPlain (c ∷ s) h = (letter-IsPlain c h.0.0 h.0.1, letters-IsPlain s h.1)
