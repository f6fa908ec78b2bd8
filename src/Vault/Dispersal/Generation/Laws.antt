-- ===== src/Vault/Dispersal/Generation/Laws.antt =====
-- The sizes of the shards that store of internal/vault/dispersal.go writes.
use shfm.Common.{ℕ, ◌+◌, ◌-◌, ◌*◌, ◌/◌, ◌≤◌, ◌≡◌, ap, true, arith}
use shfm.Common.Int.{pos}
use shfm.Vault.Dispersal.Generation.{Generation, count, consistent, file_size, halves, halves_of}

-- The sizes of the shards of a file of `n` bytes, and the padding: see `store`.
abbrev pub len_a : ℕ → ℕ
len_a n = (n + 1) / 2

abbrev pub len_b : ℕ → ℕ
len_b n = n - (n + 1) / 2

abbrev pub pad_for : ℕ → ℕ
pad_for n = len_a n - len_b n

-- `g` is the write of a file of `n` bytes: whatever shards are there have their sizes, and the
-- padding is known if C is there.
pub record IsWrite (n : ℕ) (g : Generation) : Type 0 where
  pub size_a : g.have.p0 ≡ true → g.size.p0 ≡ len_a n
  pub size_b : g.have.p1 ≡ true → g.size.p1 ≡ len_b n
  pub size_c : g.have.p2 ≡ true → g.size.p2 ≡ len_a n
  pub padding : g.have.p2 ≡ true → g.pad ≡ pad_for n

double_half : (n : ℕ) → 2 * len_a n ≡ n + pad_for n
double_half n = omega arith

consistent_of : (n : ℕ) (g : Generation) → IsWrite n g → consistent g ≡ true
unfolding consistent
consistent_of n g w = ground arith

file_size_of : (n : ℕ) (g : Generation) → IsWrite n g → 2 ≤ count g → file_size g ≡ pos n
unfolding file_size count
file_size_of n g w h = ground (arith, double_half n)

-- With two shards or three of one write, the sizes fit together, and the file's size and its
-- halves are the true ones.
pub IsWrite-sizes :
    (n : ℕ) (g : Generation)
    → IsWrite n g
    → 2 ≤ count g
    → (consistent g ≡ true) × (file_size g ≡ pos n) × (halves g ≡ (pos (len_a n), pos (len_b n)))
unfolding halves
IsWrite-sizes n g w h =
    (consistent_of n g w, file_size_of n g w h, ap halves_of (file_size_of n g w h))
