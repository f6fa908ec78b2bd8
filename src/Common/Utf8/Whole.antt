-- ===== src/Common/Utf8/Whole.antt =====
-- Texts of whole runes, and cutting one short: the loops over utf8.ValidString.
use Prim.Native.Nat.{ℕ, zero, suc, ◌+◌, ◌-◌, ◌≤◌}
use mathlib.Core.Path.{◌≡◌, refl, ap, ◌∙◌}
use mathlib.Core.Bool.{Bool, true, false, ◌&&◌}
use mathlib.Core.Logic.{inl, inr, ◌⊎◌}
use mathlib.Core.List.{List, [], ◌∷◌, ◌++◌}
use native.Mathlib.Omega.{arith}
use shfm.Common.Tests.{Bool-cases, if◌then◌else◌, ltb, ◌==◌, ==_iff}
use shfm.Common.Lists.{length, take, length-append, length-take, take-append, take_all}
use shfm.Common.Text.{Bytes, All}
use shfm.Common.Utf8.{
  Rune, rune1, rune2, rune3, rune4, bytes_of, is_rune, good, front, valid_of, valid_string, text_of,
  is_tail, second_of_three, within, front_two, front_three, front_four, both,
}

not_one : (lo hi a : ℕ) → 128 ≤ lo → within lo hi a ≡ true → ltb a 128 ≡ false
not_one lo hi a h w = ground arith

not_two :
    (lo hi a : ℕ) (b : Bool) → 224 ≤ lo → within lo hi a ≡ true → (within 194 223 a && b) ≡ false
not_two lo hi a b h w = ground arith

not_three :
    (lo hi a : ℕ) (b : Bool) → 240 ≤ lo → within lo hi a ≡ true → (within 224 239 a && b) ≡ false
not_three lo hi a b h w = ground arith

-- What a rune's bytes begin with is the rune.
pub front-bytes_of :
    (r : Rune) (s : Bytes)
    → is_rune r ≡ true
    → (a : ℕ) × (t : Bytes) × (bytes_of r ++ s ≡ a ∷ t) × (front a t ≡ good r s)
unfolding front front_two front_three front_four is_rune
front-bytes_of (rune1 a) s h = (a, s, refl, rw h refl)
front-bytes_of (rune2 a b) s h =
    (a, b ∷ s, refl, rw (not_one 194 223 a (omega arith) (both h).0) (rw h refl))
front-bytes_of (rune3 a b c) s h =
    let w = (both h).0 in
    (
      a,
      b ∷ c ∷ s,
      refl,
      rw (not_one 224 239 a (omega arith) w)
          (rw (not_two 224 239 a (is_tail b) (omega arith) w) (rw h refl)),
    )
front-bytes_of (rune4 a b c d) s h =
    let w = (both h).0 in
    (
      a,
      b ∷ c ∷ d ∷ s,
      refl,
      rw (not_one 240 244 a (omega arith) w) (
          rw (not_two 240 244 a (is_tail b) (omega arith) w) (
            rw (not_three 240 244 a (second_of_three a b && is_tail c) (omega arith) w)
              (rw h refl))),
    )

pub length-bytes_of : (r : Rune) → (1 ≤ length (bytes_of r)) × (length (bytes_of r) ≤ 4)
length-bytes_of (rune1 a) = (omega arith, omega arith)
length-bytes_of (rune2 a b) = (omega arith, omega arith)
length-bytes_of (rune3 a b c) = (omega arith, omega arith)
length-bytes_of (rune4 a b c d) = (omega arith, omega arith)

abbrev pub AllRunes : List Rune → Type 0
AllRunes rs = All (λ r. is_rune r ≡ true) rs

valid-step :
    (n : ℕ) (t : Bytes) (r : Rune) (s : Bytes) (a : ℕ) (u : Bytes)
    → t ≡ a ∷ u
    → front a u ≡ good r s
    → valid_of n s ≡ true
    → valid_of (suc n) t ≡ true
unfolding valid_of
valid-step n t r s a u e f v = rw e (rw f v)

valid-text_of :
    (n : ℕ) (rs : List Rune)
    → AllRunes rs
    → length (text_of rs) ≤ n
    → valid_of n (text_of rs) ≡ true
unfolding valid_of text_of
valid-text_of zero rs h le = refl
valid-text_of (suc n) [] h le = refl
valid-text_of (suc n) (r ∷ rs) h le =
    let (a, u, e, f) = front-bytes_of r (text_of rs) h.0 in
    valid-step n (bytes_of r ++ text_of rs) r (text_of rs) a u e f (
      valid-text_of n rs h.1
        (omega (arith, length-append (bytes_of r) (text_of rs), (length-bytes_of r).0)))

pub text_of-valid : (rs : List Rune) → AllRunes rs → valid_string (text_of rs) ≡ true
unfolding valid_string
text_of-valid rs h = valid-text_of (length (text_of rs)) rs h (omega arith)

take-add_append : (w s : Bytes) (k : ℕ) → take (length w + k) (w ++ s) ≡ w ++ take k s
take-add_append w s k =
    take-append (length w + k) w s
    ∙ (ap (λ t. t ++ take (length w + k - length w) s) (take_all (length w + k) w (omega arith))
        ∙ ap (λ j. w ++ take j s) (omega arith))

-- The text has a prefix of whole runes that is at most three bytes shorter than `n`.
near_cut :
    (n : ℕ) (rs : List Rune)
    → AllRunes rs
    → n ≤ length (text_of rs)
    → (k : ℕ) × (qs : List Rune) × (k ≤ n)
      × (n ≤ k + 3)
      × (take k (text_of rs) ≡ text_of qs)
      × AllRunes qs
unfolding text_of
near_cut n [] h le = (0, [], omega arith, omega arith, refl, tt)
near_cut n (r ∷ rs) h le =
    let w = bytes_of r in
    elim (Bool-cases (ltb n (length w))) [
      | inl e ↦ (0, [], omega arith, ground (arith, (length-bytes_of r).1), refl, tt)
      | inr e ↦
          let (k, qs, below, close, cut, all) =
            near_cut (n - length w) rs h.1
              (omega (arith, length-append w (text_of rs), not_less n (length w) e)) in
          (
            length w + k,
            r ∷ qs,
            omega (arith, not_less n (length w) e),
            omega (arith, not_less n (length w) e),
            take-add_append w (text_of rs) k ∙ ap (λ t. w ++ t) cut,
            (h.0, all),
          )
    ]
  where
    not_less : (a b : ℕ) → ltb a b ≡ false → b ≤ a
    not_less a b e = ground arith

-- `for !utf8.ValidString(s[:n]) { n-- }`, and the text that is left.
unfoldable pub cut_valid : ℕ → Bytes → Bytes
cut_valid zero s = []
cut_valid (suc n) s =
    let rest = cut_valid n s in if valid_string (take (suc n) s) then take (suc n) s else rest

pub length-cut_valid : (n : ℕ) (s : Bytes) → length (cut_valid n s) ≤ n
unfolding cut_valid
length-cut_valid zero s = omega arith
length-cut_valid (suc n) s = elim (Bool-cases (valid_string (take (suc n) s))) [
  | inl e ↦ rw e (omega (arith, length-take (suc n) s))
  | inr e ↦ rw e (omega (arith, length-cut_valid n s))
]

pub All-take : (P : ℕ → Type 0) (n : ℕ) (s : Bytes) → All P s → All P (take n s)
All-take P zero s h = tt
All-take P (suc n) [] h = tt
All-take P (suc n) (c ∷ s) h = (h.0, All-take P n s h.1)

pub All-cut_valid : (P : ℕ → Type 0) (n : ℕ) (s : Bytes) → All P s → All P (cut_valid n s)
unfolding cut_valid
All-cut_valid P zero s h = tt
All-cut_valid P (suc n) s h = elim (Bool-cases (valid_string (take (suc n) s))) [
  | inl e ↦ rw e (All-take P (suc n) s h)
  | inr e ↦ rw e (All-cut_valid P n s h)
]

clash : {a b : Bool} → a ≡ b → a ≡ true → b ≡ false → ⊥
clash h e f = cc

cut_valid-longest :
    (n k : ℕ) (s : Bytes)
    → k ≤ n
    → n ≤ length s
    → valid_string (take k s) ≡ true
    → k ≤ length (cut_valid n s)
unfolding cut_valid
cut_valid-longest zero k s h l v = omega arith
cut_valid-longest (suc n) k s h l v = elim (Bool-cases (valid_string (take (suc n) s))) [
  | inl e ↦ rw e (omega (arith, length-take (suc n) s))
  | inr e ↦ rw e (cut_valid-longest n k s (shorter e (Bool-cases (k == suc n))) (omega arith) v)
]
  where
    shorter :
        valid_string (take (suc n) s) ≡ false
        → ((k == suc n) ≡ true) ⊎ ((k == suc n) ≡ false)
        → k ≤ n
    shorter e (inl q) =
        absurd (clash (ap (λ j. valid_string (take j s)) ((==_iff k (suc n)).0 q)) v e)
    shorter e (inr q) = ground arith

-- A cut loses at most three bytes.
pub cut_valid-near :
    (n : ℕ) (rs : List Rune)
    → AllRunes rs
    → n ≤ length (text_of rs)
    → n ≤ length (cut_valid n (text_of rs)) + 3
cut_valid-near n rs h le =
    let (k, qs, below, close, cut, all) = near_cut n rs h le in
    omega (
      arith,
      cut_valid-longest n k (text_of rs) below le (ap valid_string cut ∙ text_of-valid qs all),
    )
