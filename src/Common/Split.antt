-- ===== src/Common/Split.antt =====
-- strings.Split at one byte.
use Prim.Native.Nat.{ℕ}
use mathlib.Core.Path.{◌≡◌, refl, ap}
use mathlib.Core.Bool.{Bool, true, false, not, ◌&&◌}
use mathlib.Core.Logic.{◌≢◌, inl, inr}
use mathlib.Core.List.{List, [], ◌∷◌, ◌++◌}
use native.Mathlib.Omega.{arith}
use shfm.Common.Tests.{◌==◌, if◌then◌else◌, Bool-cases}
use shfm.Common.Text.{Bytes, All}

-- The byte belongs to the first piece.
abbrev pub longer : ℕ → List Bytes → List Bytes
longer c [] = (c ∷ []) ∷ []
longer c (w ∷ ws) = (c ∷ w) ∷ ws

unfoldable pub split_on : ℕ → Bytes → List Bytes
split_on sep [] = [] ∷ []
split_on sep (c ∷ s) = let rest = split_on sep s in if c == sep then [] ∷ rest else longer c rest

-- The last piece.
abbrev pub last_of : List Bytes → Bytes
last_of [] = []
last_of (w ∷ []) = w
last_of (w ∷ ws) = last_of ws

ne_false : (c d : ℕ) → c ≢ d → (c == d) ≡ false
ne_false c d h = ground arith

pub split-append :
    (sep : ℕ) (w s : Bytes)
    → All (λ c. c ≢ sep) w
    → split_on sep (w ++ sep ∷ s) ≡ w ∷ split_on sep s
unfolding split_on
split-append sep [] s h = ground arith
split-append sep (c ∷ w) s h = rw (ne_false c sep h.0) (ap (longer c) (split-append sep w s h.1))

-- No byte of the text is the separator.
unfoldable pub is_free : ℕ → Bytes → Bool
is_free sep [] = true
is_free sep (c ∷ s) = not (c == sep) && is_free sep s

pub is_free-All : (sep : ℕ) (s : Bytes) → is_free sep s ≡ true → All (λ c. c ≢ sep) s
unfolding is_free
is_free-All sep [] h = tt
is_free-All sep (c ∷ s) h = ((λ e. ground arith), is_free-All sep s (ground arith))

longer-free :
    (sep c : ℕ) (ws : List Bytes)
    → c ≢ sep
    → All (λ w. All (λ d. d ≢ sep) w) ws
    → All (λ w. All (λ d. d ≢ sep) w) (longer c ws)
longer-free sep c [] h k = ((h, tt), tt)
longer-free sep c (w ∷ ws) h k = ((h, k.0), k.1)

-- No piece has the separator.
pub split-free : (sep : ℕ) (s : Bytes) → All (λ w. All (λ d. d ≢ sep) w) (split_on sep s)
unfolding split_on
split-free sep [] = (tt, tt)
split-free sep (c ∷ s) = elim (Bool-cases (c == sep)) [
  | inl e ↦ rw e (tt, split-free sep s)
  | inr e ↦ rw e (longer-free sep c (split_on sep s) (λ q. ground arith) (split-free sep s))
]

pub split-whole : (sep : ℕ) (s : Bytes) → All (λ c. c ≢ sep) s → split_on sep s ≡ s ∷ []
unfolding split_on
split-whole sep [] h = refl
split-whole sep (c ∷ s) h = rw (ne_false c sep h.0) (ap (longer c) (split-whole sep s h.1))
