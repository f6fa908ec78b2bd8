-- ===== src/Vault/Dispersal/Random.antt =====
-- OpenRandom and dispersedRandom: reading a file at any offset.
pub mod Window
pub mod Slice
use shfm.Common.{
  ℕ, zero, suc, ◌+◌, ◌-◌, Bool, true, false, Option, none, some, List, [], ◌∷◌, ◌++◌, Bytes, length,
  take, drop, replicate, min, ltb, leb, if◌then◌else◌,
}
use shfm.Common.Int.{pos_part}
use shfm.Vault.Dispersal.Generation.{Three, three, at, Generation, halves}
use shfm.Vault.Dispersal.Xor.{xor_onto}
use shfm.Vault.Dispersal.Open.{Parts, open_shard}

-- The opened shards by part, and the lengths of the halves. A length below zero reads as none.
pub record DispersedRandom : Type 0 where
  pub len_a : ℕ
  pub len_b : ℕ
  pub shard : Three (Option Bytes)

infixl 5 ◌>>=◌
abbrev ◌>>=◌ : {A B : Type 0} → Option A → (A → Option B) → Option B
none >>= f = none
some a >>= f = f a

-- A shard that the generation has must open; one that it lacks stays nil.
open_at : Bool → Option Bytes → Option (Option Bytes)
open_at true none = none
open_at true (some c) = some (some c)
open_at false o = some none

unfoldable pub open_random : Parts → Bytes → Generation → Option DispersedRandom
unfolding open_at
open_random parts name g = do
  a ← open_at g.have.p0 (open_shard parts name g 0)
  b ← open_at g.have.p1 (open_shard parts name g 1)
  c ← open_at g.have.p2 (open_shard parts name g 2)
  some
      (record { len_a = pos_part (halves g).0; len_b = pos_part (halves g).1; shard = three a b c })

-- `clear(b)` and a read of the start of `b`.
pub fill : ℕ → Bytes → Bytes
fill n s = s ++ replicate (n - length s) 0

pub limit : DispersedRandom → ℕ → ℕ
limit r i = elim i [ zero ↦ r.len_a | suc zero ↦ r.len_b | suc (suc j) ↦ r.len_a ]

-- Reading a nil shard would panic: none.
read_opened : Option Bytes → ℕ → ℕ → ℕ → Option Bytes
unfolding fill
read_opened none lim n off = none
read_opened (some c) lim n off =
    if leb lim off then some (fill n []) else some (fill n (take (min n (lim - off)) (drop off c)))

-- `n` bytes of shard `i` at `off`, zeros past its end.
pub read_shard : DispersedRandom → ℕ → ℕ → ℕ → Option Bytes
unfolding read_opened limit
read_shard r i n off = read_opened (at i r.shard) (limit r i) n off

-- The missing half from C and the other half.
pub half_from : Option Bytes → DispersedRandom → ℕ → ℕ → ℕ → Option Bytes
half_from (some c) r h n off = read_shard r h n off
half_from none r h n off = do
  b ← read_shard r 2 n off
  other ← read_shard r (1 - h) n off
  some (xor_onto b other)

-- `n` bytes of half `h` (0: A, 1: B) at `off`.
pub half : DispersedRandom → ℕ → ℕ → ℕ → Option Bytes
unfolding half_from
half r h n off = half_from (at h r.shard) r h n off

-- The chunk of a round: up to the end of A, or all that is left.
pub chunk : DispersedRandom → ℕ → ℕ → ℕ
chunk r left pos = if ltb pos r.len_a then min left (r.len_a - pos) else left

pub read_chunk : DispersedRandom → ℕ → ℕ → Option Bytes
read_chunk r n pos = if ltb pos r.len_a then half r 0 n pos else half r 1 n (pos - r.len_a)

-- The loop of ReadAt: `left` bytes are still to be read, from `pos` on. Fuel is for two rounds and the last test.
pub read_loop : ℕ → DispersedRandom → ℕ → ℕ → Bytes → Option Bytes
read_loop zero r left pos done = none
read_loop (suc fuel) r zero pos done = some done
read_loop (suc fuel) r (suc l) pos done =
    let n = chunk r (suc l) pos in
    do b ← read_chunk r n pos; read_loop fuel r (suc l - n) (pos + n) (done ++ b)

-- By whether the offset is behind the end.
pub read_inside : Bool → DispersedRandom → ℕ → ℕ → Option (Bytes × Bool)
read_inside true r want off = some ([], true)
read_inside false r want off = do
  b ← read_loop 3 r (min want (r.len_a + r.len_b - off)) off []
  some (b, ltb (length b) want)

-- What ReadAt of `want` bytes returns: the bytes, and whether `io.EOF` comes with them.
unfoldable pub read_at : DispersedRandom → ℕ → ℕ → Option (Bytes × Bool)
unfolding read_inside
read_at r want off = read_inside (leb (r.len_a + r.len_b) off) r want off
