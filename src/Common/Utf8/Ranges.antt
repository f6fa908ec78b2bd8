-- ===== src/Common/Utf8/Ranges.antt =====
-- The bytes of a text's runes.
use Prim.Native.Nat.{ℕ, zero, suc, ◌≤◌, ◌<◌}
use mathlib.Core.Path.{◌≡◌}
use mathlib.Core.Bool.{true}
use mathlib.Core.List.{List, [], ◌∷◌, ◌++◌}
use native.Mathlib.Omega.{arith}
use shfm.Common.Lists.{length}
use shfm.Common.Text.{Bytes, All, All-append}
use shfm.Common.Utf8.{
  Rune, rune1, rune2, rune3, rune4, bytes_of, is_rune, rune_error, Front, good, bad, front, rune_at,
  after, Splits, front-Splits, runes, runes_of, text_of, is_tail, second_of_three, second_of_four,
  within, both,
}

is_tail-big : (x : ℕ) → is_tail x ≡ true → 128 ≤ x
unfolding is_tail
is_tail-big x h = ground arith

second_of_three-big : (a b : ℕ) → second_of_three a b ≡ true → 128 ≤ b
unfolding second_of_three
second_of_three-big a b h = ground arith

second_of_four-big : (a b : ℕ) → second_of_four a b ≡ true → 128 ≤ b
unfolding second_of_four
second_of_four-big a b h = ground arith

within-big : (lo hi x : ℕ) → 128 ≤ lo → within lo hi x ≡ true → 128 ≤ x
within-big lo hi x k h = ground arith

-- A rune of several bytes has none below 128.
abbrev pub IsBig : Rune → Type 0
IsBig (rune1 a) = a < 128
IsBig r = All (λ c. 128 ≤ c) (bytes_of r)

pub is_rune-IsBig : (r : Rune) → is_rune r ≡ true → IsBig r
unfolding is_rune
is_rune-IsBig (rune1 a) h = ground arith
is_rune-IsBig (rune2 a b) h =
    let (ha, hb) = both h in (within-big 194 223 a (omega arith) ha, (is_tail-big b hb, tt))
is_rune-IsBig (rune3 a b c) h =
    let (ha, hr) = both h in
    let (hb, hc) = both hr in
    (within-big 224 239 a (omega arith) ha, (second_of_three-big a b hb, (is_tail-big c hc, tt)))
is_rune-IsBig (rune4 a b c d) h =
    let (ha, hr) = both h in
    let (hb, hs) = both hr in
    let (hc, hd) = both hs in
    (
      within-big 240 244 a (omega arith) ha,
      (second_of_four-big a b hb, (is_tail-big c hc, (is_tail-big d hd, tt))),
    )

module _ (P : ℕ → Type 0) where
  All-split : (w s : Bytes) → All P (w ++ s) → All P w × All P s
  All-split [] s h = (tt, h)
  All-split (c ∷ w) s h = let (hw, hs) = All-split w s h.1 in ((h.0, hw), hs)

  All-eq : {s t : Bytes} → s ≡ t → All P t → All P s
  All-eq e h = rw e h

  All-Splits :
      (t : Bytes) (f : Front)
      → Splits t f
      → All P (bytes_of rune_error)
      → All P t
      → All P (bytes_of (rune_at f)) × All P (after f)
  All-Splits t (good r s) h e all = All-split (bytes_of r) s (All-eq h.0 all)
  All-Splits t (bad s) h e all = (e, (All-eq h.1 all).1)

  All-runes_of :
      (n : ℕ) (s : Bytes)
      → All P (bytes_of rune_error)
      → All P s
      → All (λ r. All P (bytes_of r)) (runes_of n s)
  unfolding runes_of
  All-runes_of zero s e all = tt
  All-runes_of (suc n) [] e all = tt
  All-runes_of (suc n) (a ∷ s) e all =
      let (hr, ht) = All-Splits (a ∷ s) (front a s) (front-Splits a s) e all in
      (hr, All-runes_of n (after (front a s)) e ht)

  -- What holds of a text's bytes and of the error's holds of its runes' bytes.
  pub All-runes :
      (s : Bytes) → All P (bytes_of rune_error) → All P s → All (λ r. All P (bytes_of r)) (runes s)
  All-runes s e all = unfold runes in All-runes_of (length s) s e all

  pub All-text_of : (rs : List Rune) → All (λ r. All P (bytes_of r)) rs → All P (text_of rs)
  unfolding text_of
  All-text_of [] h = tt
  All-text_of (r ∷ rs) h = All-append P (bytes_of r) (text_of rs) h.0 (All-text_of rs h.1)
