-- ===== src/Common/Int.antt =====
-- Signed integers over the native numbers, for lengths that the source may take below zero.
use Prim.Native.Nat.{ℕ, ◌-◌}
use shfm.Common.Tests.{leb, if◌then◌else◌}

-- `negsuc n` is -(n + 1).
pub data ℤ : Type 0 where
  pos : ℕ → ℤ
  negsuc : ℕ → ℤ

-- max(0, n): what a reader limited to `n` bytes reads at most.
abbrev pub pos_part : ℤ → ℕ
pos_part (pos n) = n
pos_part (negsuc n) = 0

-- a - b, as an integer.
abbrev pub sub_ℕ : ℕ → ℕ → ℤ
sub_ℕ a b = if leb b a then pos (a - b) else negsuc (b - a - 1)
