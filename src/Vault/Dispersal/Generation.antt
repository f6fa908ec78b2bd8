-- ===== src/Vault/Dispersal/Generation.antt =====
-- generation: one write of a file, as its shards are found on the three parts.
pub mod Laws
use shfm.Common.{
  ℕ, zero, suc, ◌+◌, ◌-◌, ◌*◌, ◌/◌, Bool, true, false, ◌&&◌, ◌||◌, not, Bytes, ◌==◌, ltb,
  if◌then◌else◌,
}
use shfm.Common.Int.{ℤ, pos, negsuc, sub_ℕ}

-- An array of three, one element for each part.
pub record Three {ℓ} (A : Type ℓ) : Type ℓ where
  pub p0 : A
  pub p1 : A
  pub p2 : A

abbrev pub three {ℓ} : {A : Type ℓ} → A → A → A → Three A
three x y z = record { p0 = x; p1 = y; p2 = z }

abbrev pub at {ℓ} : {A : Type ℓ} → ℕ → Three A → A
at zero t = t.p0
at (suc zero) t = t.p1
at (suc (suc i)) t = t.p2

abbrev pub set_at {ℓ} : {A : Type ℓ} → ℕ → A → Three A → Three A
set_at zero v t = record t { p0 = v }
set_at (suc zero) v t = record t { p1 = v }
set_at (suc (suc i)) v t = record t { p2 = v }

pub record Generation : Type 0 where
  pub gen : Bytes
  pub have : Three Bool
  pub size : Three ℕ
  pub pad : ℕ
  pub mtime : ℕ

abbrev pub one_if : Bool → ℕ
one_if b = if b then 1 else 0

unfoldable pub count : Generation → ℕ
count g = one_if g.have.p0 + one_if g.have.p1 + one_if g.have.p2

-- `b != c-int64(g.pad)` is written without the difference, which may be negative in the source.
unfoldable pub consistent : Generation → Bool
consistent g =
    if g.have.p0 && (g.have.p2 && not (g.size.p0 == g.size.p2))
    then false
    else if g.have.p1 && (g.have.p2 && not (g.size.p1 + g.pad == g.size.p2))
    then false
    else if g.have.p0 && (g.have.p1 && (ltb g.size.p0 g.size.p1 || ltb (g.size.p1 + 1) g.size.p0))
    then false
    else true

-- The whole file's size; -1 is possible where an empty shard claims a padding.
unfoldable pub file_size : Generation → ℤ
file_size g =
    if g.have.p0 && g.have.p1
    then pos (g.size.p0 + g.size.p1)
    else if g.have.p0
    then sub_ℕ (2 * g.size.p0) g.pad
    else sub_ℕ (2 * g.size.p2) g.pad

-- Go's division truncates towards zero.
halves_of : ℤ → ℤ × ℤ
halves_of (pos n) = (pos ((n + 1) / 2), pos (n - (n + 1) / 2))
halves_of (negsuc m) = (sub_ℕ 0 (m / 2), sub_ℕ (m / 2) (m + 1))

-- The sizes of A and B.
unfoldable pub halves : Generation → ℤ × ℤ
unfolding halves_of file_size
halves g = halves_of (file_size g)
