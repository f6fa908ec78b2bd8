-- ===== src/Common/Decimal.antt =====
-- strconv.Itoa of a number that is not negative.
use Prim.Native.Nat.{ℕ, zero, suc, ◌+◌, ◌-◌, ◌*◌, ◌/◌, ◌%◌, ◌<◌, ◌≤◌}
use mathlib.Core.Path.{◌≡◌, sym, ap, ◌∙◌}
use mathlib.Core.Logic.{inl, inr}
use mathlib.Core.List.{[], ◌∷◌}
use native.Mathlib.Omega.{arith}
use shfm.Common.Tests.{ltb, if◌then◌else◌, Bool-cases}
use shfm.Common.Text.{Bytes, All}

unfoldable pub decimal_loop : ℕ → ℕ → Bytes → Bytes
decimal_loop zero n s = s
decimal_loop (suc fuel) n s =
    let rest = decimal_loop fuel (n / 10) ((48 + n % 10) ∷ s) in
    if ltb n 10 then (48 + n) ∷ s else rest

unfoldable pub decimal : ℕ → Bytes
unfolding decimal_loop
decimal n = decimal_loop (suc n) n []

value_from : ℕ → Bytes → ℕ
value_from v [] = v
value_from v (c ∷ s) = value_from (v * 10 + (c - 48)) s

value-loop :
    (fuel n : ℕ) (s : Bytes) → n < fuel → value_from 0 (decimal_loop fuel n s) ≡ value_from n s
unfolding decimal_loop value_from
value-loop zero n s h = absurd (omega arith)
value-loop (suc fuel) n s h = elim (Bool-cases (ltb n 10)) [
  | inl e ↦ rw e (ap (λ v. value_from v s) (omega arith))
  | inr e ↦ rw e (
      value-loop fuel (n / 10) ((48 + n % 10) ∷ s) (ground arith)
      ∙ ap (λ v. value_from v s) (omega arith))
]

value-decimal : (n : ℕ) → value_from 0 (decimal n) ≡ n
unfolding decimal value_from
value-decimal n = value-loop (suc n) n [] (omega arith)

-- Two numbers that are written the same are the same.
pub decimal_injective : (n m : ℕ) → decimal n ≡ decimal m → n ≡ m
decimal_injective n m h = sym (value-decimal n) ∙ (ap (value_from 0) h ∙ value-decimal m)

-- Only digits are written.
decimal_loop-All :
    (fuel n : ℕ) (s : Bytes) → All (λ c. 48 ≤ c) s → All (λ c. 48 ≤ c) (decimal_loop fuel n s)
unfolding decimal_loop
decimal_loop-All zero n s h = h
decimal_loop-All (suc fuel) n s h = elim (Bool-cases (ltb n 10)) [
  | inl e ↦ rw e (omega arith, h)
  | inr e ↦ rw e (decimal_loop-All fuel (n / 10) ((48 + n % 10) ∷ s) (omega arith, h))
]

pub decimal-All : (n : ℕ) → All (λ c. 48 ≤ c) (decimal n)
unfolding decimal
decimal-All n = decimal_loop-All (suc n) n [] tt
