-- ===== src/Common/Utf8.antt =====
-- UTF-8 as Go's `for range` over a string and unicode/utf8 read it. A rune stands by its encoding.
pub mod Whole
pub mod Ranges
use Prim.Native.Nat.{ℕ, zero, suc, ◌+◌, ◌≤◌, ◌<◌}
use mathlib.Core.Path.{◌≡◌, refl, ap, ◌∙◌}
use mathlib.Core.Bool.{Bool, true, false, ◌&&◌, ◌||◌}
use mathlib.Core.Logic.{inl, inr}
use mathlib.Core.List.{List, [], ◌∷◌, ◌++◌}
use native.Mathlib.Omega.{arith}
use shfm.Common.Tests.{ltb, leb, ◌==◌, if◌then◌else◌, Bool-cases}
use shfm.Common.Lists.{length, take}
use shfm.Common.Text.{Bytes, All}

pub data Rune : Type 0 where
  rune1 : ℕ → Rune
  rune2 : ℕ → ℕ → Rune
  rune3 : ℕ → ℕ → ℕ → Rune
  rune4 : ℕ → ℕ → ℕ → ℕ → Rune

-- utf8.AppendRune
abbrev pub bytes_of : Rune → Bytes
bytes_of (rune1 a) = a ∷ []
bytes_of (rune2 a b) = a ∷ b ∷ []
bytes_of (rune3 a b c) = a ∷ b ∷ c ∷ []
bytes_of (rune4 a b c d) = a ∷ b ∷ c ∷ d ∷ []

-- utf8.RuneError, U+FFFD
abbrev pub rune_error : Rune
rune_error = rune3 239 191 189

abbrev within : ℕ → ℕ → ℕ → Bool
within lo hi x = leb lo x && leb x hi

is_tail : ℕ → Bool
is_tail x = within 128 191 x

-- What the second byte of three may be, and of four: no overlong form, no surrogate.
second_of_three : ℕ → ℕ → Bool
second_of_three a b =
    if a == 224 then within 160 191 b else if a == 237 then within 128 159 b else within 128 191 b

second_of_four : ℕ → ℕ → Bool
second_of_four a b =
    if a == 240 then within 144 191 b else if a == 244 then within 128 143 b else within 128 191 b

-- Whether the bytes encode a rune.
unfoldable pub is_rune : Rune → Bool
unfolding is_tail second_of_three second_of_four
is_rune (rune1 a) = ltb a 128
is_rune (rune2 a b) = within 194 223 a && is_tail b
is_rune (rune3 a b c) = within 224 239 a && (second_of_three a b && is_tail c)
is_rune (rune4 a b c d) = within 240 244 a && (second_of_four a b && (is_tail c && is_tail d))

-- The rune at the front and the bytes after it; a byte that starts none is skipped.
pub data Front : Type 0 where
  good : Rune → Bytes → Front
  bad : Bytes → Front

abbrev pub or_else : Bool → Rune → Bytes → Front → Front
or_else true r s f = good r s
or_else false r s f = f

front_four : ℕ → Bytes → Front
front_four a (b ∷ c ∷ d ∷ s) =
    or_else (is_rune (rune4 a b c d)) (rune4 a b c d) s (bad (b ∷ c ∷ d ∷ s))
front_four a s = bad s

front_three : ℕ → Bytes → Front
unfolding front_four
front_three a (b ∷ c ∷ s) =
    or_else (is_rune (rune3 a b c)) (rune3 a b c) s (front_four a (b ∷ c ∷ s))
front_three a s = bad s

front_two : ℕ → Bytes → Front
unfolding front_three
front_two a [] = bad []
front_two a (b ∷ s) = or_else (is_rune (rune2 a b)) (rune2 a b) s (front_three a (b ∷ s))

unfoldable pub front : ℕ → Bytes → Front
unfolding front_two
front a s = or_else (is_rune (rune1 a)) (rune1 a) s (front_two a s)

abbrev pub rune_at : Front → Rune
rune_at (good r s) = r
rune_at (bad s) = rune_error

abbrev pub after : Front → Bytes
after (good r s) = s
after (bad s) = s

abbrev pub is_good : Front → Bool
is_good (good r s) = true
is_good (bad s) = false

unfoldable pub runes_of : ℕ → Bytes → List Rune
unfolding front
runes_of zero s = []
runes_of (suc n) [] = []
runes_of (suc n) (a ∷ s) = let f = front a s in rune_at f ∷ runes_of n (after f)

-- `for _, r := range s`
unfoldable pub runes : Bytes → List Rune
unfolding runes_of
runes s = runes_of (length s) s

unfoldable pub valid_of : ℕ → Bytes → Bool
unfolding front
valid_of zero s = true
valid_of (suc n) [] = true
valid_of (suc n) (a ∷ s) = let f = front a s in is_good f && valid_of n (after f)

-- utf8.ValidString
unfoldable pub valid_string : Bytes → Bool
unfolding valid_of
valid_string s = valid_of (length s) s

-- The text of a sequence of runes.
unfoldable pub text_of : List Rune → Bytes
text_of [] = []
text_of (r ∷ rs) = bytes_of r ++ text_of rs

-- A front is one of the two, and its bytes are the text.
abbrev pub Splits : Bytes → Front → Type 0
Splits t (good r s) = (bytes_of r ++ s ≡ t) × (is_rune r ≡ true)
Splits t (bad s) = (c : ℕ) × (c ∷ s ≡ t)

or_else-Splits :
    (b : Bool) (t : Bytes) (r : Rune) (s : Bytes) (f : Front)
    → is_rune r ≡ b
    → bytes_of r ++ s ≡ t
    → Splits t f
    → Splits t (or_else b r s f)
or_else-Splits true t r s f e h k = (h, e)
or_else-Splits false t r s f e h k = k

front_four-Splits : (a : ℕ) (s : Bytes) → Splits (a ∷ s) (front_four a s)
unfolding front_four
front_four-Splits a [] = (a, refl)
front_four-Splits a (b ∷ []) = (a, refl)
front_four-Splits a (b ∷ c ∷ []) = (a, refl)
front_four-Splits a (b ∷ c ∷ d ∷ s) =
    or_else-Splits (is_rune (rune4 a b c d)) (a ∷ b ∷ c ∷ d ∷ s) (rune4 a b c d) s
      (bad (b ∷ c ∷ d ∷ s)) refl refl (a, refl)

front_three-Splits : (a : ℕ) (s : Bytes) → Splits (a ∷ s) (front_three a s)
unfolding front_three
front_three-Splits a [] = (a, refl)
front_three-Splits a (b ∷ []) = (a, refl)
front_three-Splits a (b ∷ c ∷ s) =
    or_else-Splits (is_rune (rune3 a b c)) (a ∷ b ∷ c ∷ s) (rune3 a b c) s
      (front_four a (b ∷ c ∷ s)) refl refl (front_four-Splits a (b ∷ c ∷ s))

front_two-Splits : (a : ℕ) (s : Bytes) → Splits (a ∷ s) (front_two a s)
unfolding front_two
front_two-Splits a [] = (a, refl)
front_two-Splits a (b ∷ s) =
    or_else-Splits (is_rune (rune2 a b)) (a ∷ b ∷ s) (rune2 a b) s (front_three a (b ∷ s)) refl refl
      (front_three-Splits a (b ∷ s))

pub front-Splits : (a : ℕ) (s : Bytes) → Splits (a ∷ s) (front a s)
unfolding front
front-Splits a s =
    or_else-Splits (is_rune (rune1 a)) (a ∷ s) (rune1 a) s (front_two a s) refl refl
      (front_two-Splits a s)

Splits-shorter : (a : ℕ) (s : Bytes) (f : Front) → Splits (a ∷ s) f → length (after f) ≤ length s
Splits-shorter a s (good (rune1 x) t) (h, e) = omega (arith, ap length h)
Splits-shorter a s (good (rune2 x y) t) (h, e) = omega (arith, ap length h)
Splits-shorter a s (good (rune3 x y z) t) (h, e) = omega (arith, ap length h)
Splits-shorter a s (good (rune4 x y z w) t) (h, e) = omega (arith, ap length h)
Splits-shorter a s (bad t) (c, h) = omega (arith, ap length h)

Splits-good :
    (t : Bytes) (f : Front)
    → Splits t f
    → is_good f ≡ true
    → (bytes_of (rune_at f) ++ after f ≡ t) × (is_rune (rune_at f) ≡ true)
Splits-good t (good r s) h e = h
Splits-good t (bad s) h e = cc

pub both : {a b : Bool} → (a && b) ≡ true → (a ≡ true) × (b ≡ true)
both {a} {b} h = (ground arith, ground arith)

Splits-IsRune : (t : Bytes) (f : Front) → Splits t f → is_rune (rune_at f) ≡ true
unfolding is_rune
Splits-IsRune t (good r s) h = h.1
Splits-IsRune t (bad s) h = refl

runes_of-AllRunes : (n : ℕ) (s : Bytes) → All (λ r. is_rune r ≡ true) (runes_of n s)
unfolding runes_of
runes_of-AllRunes zero s = tt
runes_of-AllRunes (suc n) [] = tt
runes_of-AllRunes (suc n) (a ∷ s) =
    (Splits-IsRune (a ∷ s) (front a s) (front-Splits a s), runes_of-AllRunes n (after (front a s)))

pub runes-AllRunes : (s : Bytes) → All (λ r. is_rune r ≡ true) (runes s)
runes-AllRunes s = unfold runes in runes_of-AllRunes (length s) s

text-runes_of :
    (n : ℕ) (s : Bytes) → length s ≤ n → valid_of n s ≡ true → text_of (runes_of n s) ≡ s
unfolding runes_of valid_of text_of
text-runes_of zero [] h v = refl
text-runes_of zero (a ∷ s) h v = absurd (omega arith)
text-runes_of (suc n) [] h v = refl
text-runes_of (suc n) (a ∷ s) h v =
    let f = front a s in
    let sp = front-Splits a s in
    let split = Splits-good (a ∷ s) f sp (both v).0 in
    ap (λ t. bytes_of (rune_at f) ++ t)
      (text-runes_of n (after f) (omega (arith, Splits-shorter a s f sp)) (both v).1)
    ∙ split.0

-- A valid string is the text of its runes.
pub text-runes : (s : Bytes) → valid_string s ≡ true → text_of (runes s) ≡ s
text-runes s v = unfold runes valid_string in text-runes_of (length s) s (omega arith) v

is_tail-small : (x : ℕ) → is_tail x ≡ true → x < 256
unfolding is_tail
is_tail-small x h = ground arith

second_of_three-small : (a b : ℕ) → second_of_three a b ≡ true → b < 256
unfolding second_of_three
second_of_three-small a b h = ground arith

second_of_four-small : (a b : ℕ) → second_of_four a b ≡ true → b < 256
unfolding second_of_four
second_of_four-small a b h = ground arith

within-small : (lo hi x : ℕ) → hi < 256 → within lo hi x ≡ true → x < 256
within-small lo hi x k h = ground arith

pub bytes_of-small : (r : Rune) → is_rune r ≡ true → All (λ c. c < 256) (bytes_of r)
unfolding is_rune
bytes_of-small (rune1 a) h = (ground arith, tt)
bytes_of-small (rune2 a b) h =
    let (ha, hb) = both h in (within-small 194 223 a (omega arith) ha, (is_tail-small b hb, tt))
bytes_of-small (rune3 a b c) h =
    let (ha, hr) = both h in
    let (hb, hc) = both hr in
    (
      within-small 224 239 a (omega arith) ha,
      (second_of_three-small a b hb, (is_tail-small c hc, tt)),
    )
bytes_of-small (rune4 a b c d) h =
    let (ha, hr) = both h in
    let (hb, hs) = both hr in
    let (hc, hd) = both hs in
    (
      within-small 240 244 a (omega arith) ha,
      (second_of_four-small a b hb, (is_tail-small c hc, (is_tail-small d hd, tt))),
    )
