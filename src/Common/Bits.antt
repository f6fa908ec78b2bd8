-- ===== src/Common/Bits.antt =====
-- Laws of the exclusive or of native numbers, at every width, from its recursion on digits.
use Prim.Native.Nat.{
  ℕ, zero, suc, ◌+◌, ◌*◌, ◌/◌, ◌%◌, ◌≤◌, ◌<◌, bit_xor, bit_xor-bitwise, digits, differ,
}
use mathlib.Core.Path.{◌≡◌, refl, ap, ◌∙◌}
use native.Mathlib.Decide.{dec_lt}
use native.Mathlib.Omega.{arith}

-- The digits of the exclusive or, in so many rounds.
abbrev rounds : ℕ → ℕ → ℕ → ℕ
rounds = digits (λ y. y) differ

-- A round that comes after the last digit adds nothing.
one_more : (b a k : ℕ) → k ≤ a → rounds (suc a) k b ≡ rounds a k b
one_more b zero zero small = refl
one_more b (suc a) zero small = refl
one_more b zero (suc k) small = absurd (omega arith)
one_more b (suc a) (suc k) small =
    let fewer = one_more (b / 2) a (suc k / 2) (omega arith) in omega (arith, fewer)

-- As many rounds as the number are enough.
rounds_enough : (b a k : ℕ) → k ≤ a → rounds a k b ≡ rounds k k b
rounds_enough b zero k small =
    let none_left : 0 ≡ k = omega arith in ap (λ (n : ℕ). rounds n k b) none_left
rounds_enough b (suc a) k small = elim (dec_lt a k) [
  | yes all ↦ let same : suc a ≡ k = omega arith in ap (λ (n : ℕ). rounds n k b) same
  | no less ↦ one_more b a k (omega arith) ∙ rounds_enough b a k (omega arith)
]

differ_bits : (x y : ℕ) → x < 2 → y < 2 → differ x y ≡ (x + y) % 2
differ_bits zero y h k = omega arith
differ_bits (suc zero) zero h k = refl
differ_bits (suc zero) (suc zero) h k = refl
differ_bits (suc zero) (suc (suc y)) h k = absurd (omega arith)
differ_bits (suc (suc x)) y h k = absurd (omega arith)

pub zero-bit_xor : (b : ℕ) → bit_xor 0 b ≡ b
zero-bit_xor b = bit_xor-bitwise 0 b

bit_xor_step : (a b : ℕ) → bit_xor a b ≡ bit_xor (a / 2) (b / 2) * 2 + (a % 2 + b % 2) % 2
bit_xor_step zero b = omega (arith, zero-bit_xor b, zero-bit_xor (b / 2))
bit_xor_step (suc a) b = omega (
  arith,
  rounds_enough (b / 2) a (suc a / 2) (omega arith),
  bit_xor-bitwise (suc a) b,
  bit_xor-bitwise (suc a / 2) (b / 2),
  differ_bits (suc a % 2) (b % 2) (omega arith) (omega arith),
)

cancel_fuel : (n a b : ℕ) → a + b ≤ n → bit_xor (bit_xor a b) b ≡ a
cancel_fuel n zero zero h = refl
cancel_fuel zero zero (suc b) h = absurd (omega arith)
cancel_fuel zero (suc a) b h = absurd (omega arith)
cancel_fuel (suc n) a b h =
    let half : bit_xor a b / 2 ≡ bit_xor (a / 2) (b / 2) = omega (arith, bit_xor_step a b) in
    omega (
      arith,
      bit_xor_step a b,
      bit_xor_step (bit_xor a b) b,
      ap (λ (t : ℕ). bit_xor t (b / 2)) half,
      cancel_fuel n (a / 2) (b / 2) (omega arith),
    )

comm_fuel : (n a b : ℕ) → a + b ≤ n → bit_xor a b ≡ bit_xor b a
comm_fuel zero zero zero h = refl
comm_fuel zero zero (suc b) h = absurd (omega arith)
comm_fuel zero (suc a) b h = absurd (omega arith)
comm_fuel (suc n) a b h =
    omega (arith, bit_xor_step a b, bit_xor_step b a, comm_fuel n (a / 2) (b / 2) (omega arith))

pub bit_xor_comm : (a b : ℕ) → bit_xor a b ≡ bit_xor b a
bit_xor_comm a b = comm_fuel (a + b) a b (omega arith)

-- Applying the same mask twice gives the value back.
pub bit_xor_cancel : (a b : ℕ) → bit_xor (bit_xor a b) b ≡ a
bit_xor_cancel a b = cancel_fuel (a + b) a b (omega arith)

-- The value, applied to the result of the exclusive or, gives the mask back.
pub bit_xor_cancel_left : (a b : ℕ) → bit_xor a (bit_xor a b) ≡ b
bit_xor_cancel_left a b =
    bit_xor_comm a (bit_xor a b)
    ∙ ap (λ (t : ℕ). bit_xor t a) (bit_xor_comm a b)
    ∙ bit_xor_cancel b a

pub bit_xor-zero : (a : ℕ) → bit_xor a 0 ≡ a
bit_xor-zero a = bit_xor_comm a 0 ∙ zero-bit_xor a
