-- ===== src/Vault/Dispersal/Open.antt =====
-- Open: the file from two of its shards. A part is the folder of the file on one source, or none
-- where the source is not connected. Opening answers from the part as it stands; the closing of
-- readers holds no state of the file and is left out.
pub mod AnyTwo
use shfm.Common.{
  ℕ, zero, suc, Bool, true, false, ◌&&◌, Option, none, some, List, [], ◌∷◌, Bytes, if◌then◌else◌,
}
use shfm.Common.Int.{ℤ, pos_part}
use shfm.Backend.{Disk, read}
use shfm.Vault.Dispersal.Names.{shard_name}
use shfm.Vault.Dispersal.Generation.{Three, at, Generation, halves}
use shfm.Vault.Dispersal.Xor.{XorReader}
use shfm.Vault.Dispersal.Reader.{Reader, limited, xored, StepReader, copy_all}

abbrev pub Parts : Type 0
Parts = Three (Option Disk)

unfoldable pub open_on : Option Disk → Bytes → Option Bytes
open_on none n = none
open_on (some d) n = (read n d).0

-- The content that shard `i` of generation `g` of file `name` is opened with.
unfoldable pub open_shard : Parts → Bytes → Generation → ℕ → Option Bytes
unfolding open_on
open_shard parts name g i = open_on (at i parts) (shard_name name g.gen i g.pad)

single_of : Option Bytes → ℕ → Option Reader
single_of none n = none
single_of (some c) n = some (limited c n)

xor_of : Option Bytes → Option Bytes → ℕ → Option Reader
xor_of none r n = none
xor_of (some x) none n = none
xor_of (some x) (some y) n = some (xored (record { a = x; b = y; left = n; b_eof = false }))

module _ (parts : Parts) (name : Bytes) (g : Generation) where
  single : ℕ → ℤ → Option Reader
  unfolding single_of
  single i n = single_of (open_shard parts name g i) (pos_part n)

  xor : ℕ → ℕ → ℤ → Option Reader
  unfolding xor_of
  xor i j n = xor_of (open_shard parts name g i) (open_shard parts name g j) (pos_part n)

  -- By which of A and B are there: A then B, or a missing half as the exclusive or of the other
  -- two.
  pub steps_for : Bool → Bool → ℤ → ℤ → List (Option Reader)
  unfolding single xor
  steps_for true true la lb = single 0 la ∷ single 1 lb ∷ []
  steps_for true false la lb = single 0 la ∷ xor 0 2 lb ∷ []
  steps_for false b la lb = xor 2 1 la ∷ single 1 lb ∷ []

  pub open_steps : List (Option Reader)
  unfolding steps_for
  open_steps = let (la, lb) = halves g in steps_for g.have.p0 g.have.p1 la lb

  unfoldable pub open_reader : StepReader
  unfolding open_steps
  open_reader = record { steps = open_steps; cur = none }
