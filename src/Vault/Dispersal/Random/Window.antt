-- ===== src/Vault/Dispersal/Random/Window.antt =====
-- Windows of shards, for dispersedRandom of internal/vault/dispersal.go: a number of bytes from an
-- offset, with zeros past the end.
use Prim.Native.Nat.{bit_xor}
use shfm.Common.{
  ℕ, zero, suc, ◌+◌, ◌≤◌, ◌≡◌, refl, sym, ap, take-nil, ◌∙◌, Bytes, [], ◌∷◌, ◌++◌, length, take,
  drop, replicate, arith, suc_sub_suc, sub_zero,
}
use shfm.Common.Bits.{bit_xor_cancel, bit_xor-zero, bit_xor_comm, bit_xor_cancel_left}
use shfm.Vault.Dispersal.Xor.{xor_onto}
use shfm.Vault.Dispersal.Random.{fill}

abbrev pub byte_at : Bytes → ℕ → ℕ
byte_at [] i = 0
byte_at (x ∷ s) zero = x
byte_at (x ∷ s) (suc i) = byte_at s i

pub window : ℕ → ℕ → Bytes → Bytes
window zero off s = []
window (suc n) off s = byte_at s off ∷ window n (suc off) s

pub length-window : (n off : ℕ) (s : Bytes) → length (window n off s) ≡ n
unfolding window
length-window zero off s = refl
length-window (suc n) off s = ap suc (length-window n (suc off) s)

window-nil : (n off : ℕ) → window n off [] ≡ replicate n 0
unfolding window
window-nil zero off = refl
window-nil (suc n) off = ap (λ t. 0 ∷ t) (window-nil n (suc off))

window-cons : (n off x : ℕ) (s : Bytes) → window n (suc off) (x ∷ s) ≡ window n off s
unfolding window
window-cons zero off x s = refl
window-cons (suc n) off x s = ap (λ t. byte_at s off ∷ t) (window-cons n (suc off) x s)

window_start : (n : ℕ) (s : Bytes) → window n 0 s ≡ fill n (take n s)
unfolding window fill
window_start zero s = refl
window_start (suc n) [] = rw (sub_zero (suc n)) (ap (λ t. 0 ∷ t) (window-nil n 1))
window_start (suc n) (x ∷ s) =
    ap (λ t. x ∷ t)
      (window-cons n 0 x s
        ∙ window_start n s
        ∙ ap (λ k. take n s ++ replicate k 0) (sym (suc_sub_suc n (length (take n s)))))

pub fill-take-nil : (n : ℕ) → fill n (take n []) ≡ replicate n 0
unfolding fill
fill-take-nil n = rw (take-nil n) (rw (sub_zero n) refl)

-- What a read of a shard gives is a window.
pub window-fill : (n off : ℕ) (s : Bytes) → window n off s ≡ fill n (take n (drop off s))
window-fill n zero s = window_start n s
window-fill n (suc off) [] = window-nil n (suc off) ∙ sym (fill-take-nil n)
window-fill n (suc off) (x ∷ s) = window-cons n off x s ∙ window-fill n off s

-- Inside the shard a window is a slice.
pub window-slice :
    (n off : ℕ) (s : Bytes) → off + n ≤ length s → window n off s ≡ take n (drop off s)
unfolding window
window-slice zero off s h = refl
window-slice (suc n) off [] h = absurd (omega arith)
window-slice (suc n) zero (x ∷ s) h =
    ap (λ t. x ∷ t) (window-cons n 0 x s ∙ window-slice n 0 s (omega arith))
window-slice (suc n) (suc off) (x ∷ s) h =
    window-cons (suc n) off x s ∙ window-slice (suc n) off s (omega arith)

byte_at-xor_onto :
    (a b : Bytes) (i : ℕ)
    → length b ≤ length a
    → byte_at (xor_onto a b) i ≡ bit_xor (byte_at a i) (byte_at b i)
unfolding xor_onto
byte_at-xor_onto [] [] i h = refl
byte_at-xor_onto [] (y ∷ b) i h = absurd (omega arith)
byte_at-xor_onto (x ∷ a) [] zero h = sym (bit_xor-zero x)
byte_at-xor_onto (x ∷ a) [] (suc i) h = sym (bit_xor-zero (byte_at a i))
byte_at-xor_onto (x ∷ a) (y ∷ b) zero h = refl
byte_at-xor_onto (x ∷ a) (y ∷ b) (suc i) h = byte_at-xor_onto a b i (omega arith)

-- C and B give A back, window by window.
pub window_cancel :
    (n off : ℕ) (a b : Bytes)
    → length b ≤ length a
    → xor_onto (window n off (xor_onto a b)) (window n off b) ≡ window n off a
unfolding xor_onto window
window_cancel zero off a b h = refl
window_cancel (suc n) off a b h = λ i.
    (ap (λ t. bit_xor t (byte_at b off)) (byte_at-xor_onto a b off h)
        ∙ bit_xor_cancel (byte_at a off) (byte_at b off))
      i
    ∷ window_cancel n (suc off) a b h i

-- C and A give B back.
pub window_cancel_left :
    (n off : ℕ) (a b : Bytes)
    → length b ≤ length a
    → xor_onto (window n off (xor_onto a b)) (window n off a) ≡ window n off b
unfolding xor_onto window
window_cancel_left zero off a b h = refl
window_cancel_left (suc n) off a b h = λ i.
    (ap (λ t. bit_xor t (byte_at a off)) (byte_at-xor_onto a b off h)
        ∙ bit_xor_comm (bit_xor (byte_at a off) (byte_at b off)) (byte_at a off)
        ∙ bit_xor_cancel_left (byte_at a off) (byte_at b off))
      i
    ∷ window_cancel_left n (suc off) a b h i
