-- ===== src/Vault/Store/Tests.antt =====
-- The vault's small files: an index of two bytes replaced by one of three.
use shfm.Common.{
  ℕ, zero, suc, ◌≡◌, refl, ◌⊎◌, ◌<◌, true, false, Option, none, some, [], ◌∷◌, ◌++◌, Bytes, codes,
  length, take, bytes_eq, if◌then◌else◌, arith,
}
use shfm.Backend.{Disk, ok, failed, cut, unsupported, success}
use shfm.Backend.Nodes.{file, find}
use shfm.Vault.Store.{tmp_suffix, replace, loaded, not_exist, read_small_versions}
use shfm.Vault.Store.ReadBack.{settled, read-replace}
use shfm.Vault.Store.Loss.{replace-loses}

abbrev old : Bytes
old = codes "v1"

abbrev new : Bytes
new = codes "v2."

-- what decodes is a whole version
abbrev decode : Bytes → Option Bytes
decode c = if bytes_eq c old then some old else if bytes_eq c new then some new else none

abbrev index : Bytes
index = codes "index"

-- the backend cannot rename, and stops while `index` is written
abbrev disk : Disk
disk = record {
  nodes = (index, file old 0) ∷ [];
  script = success ∷ success ∷ success ∷ success ∷ success ∷ unsupported ∷ success ∷ cut 1 ∷ [];
  sized = false;
  clock = 1;
}

cut_short : (k : ℕ) → k < length new → decode (take k new) ≡ none
unfolding bytes_eq
cut_short zero h = refl
cut_short (suc zero) h = refl
cut_short (suc (suc zero)) h = refl
cut_short (suc (suc (suc k))) h = absurd (omega arith)

old_good : decode old ≡ some old
unfolding bytes_eq
old_good = refl

new_good : decode new ≡ some new
unfolding bytes_eq
new_good = refl

stands : find index disk.nodes ≡ some (file old 0)
unfolding find bytes_eq
stands = refl

abbrev after : Disk
after = (replace index new true disk).1

read-replace_example :
    (((read_small_versions decode index true (settled after)).0 ≡ loaded old)
      ⊎ ((read_small_versions decode index true (settled after)).0 ≡ loaded new))
    × ((replace index new true disk).0 ≡ ok
        → (read_small_versions decode index true (settled after)).0 ≡ loaded new)
read-replace_example =
    read-replace decode index old new old new (omega arith) (omega arith) old_good new_good
      cut_short true true disk (0, stands)

-- an interrupted replacement left the identity in its temporary file
abbrev left : Disk
left = record {
  nodes = (index ++ tmp_suffix, file old 0) ∷ [];
  script = cut 1 ∷ [];
  sized = false;
  clock = 1;
}

only : find (index ++ tmp_suffix) left.nodes ≡ some (file old 0)
unfolding find bytes_eq
only = refl

missing : find index left.nodes ≡ none
unfolding find bytes_eq
missing = refl

replace-loses_example :
    ((read_small_versions decode index false (settled left)).0 ≡ loaded old)
    × ((replace index new false left).0 ≡ failed)
    × ((read_small_versions decode index false (settled (replace index new false left).1)).0
        ≡ not_exist)
replace-loses_example =
    replace-loses decode index old old new 1 left (0, only) missing refl (omega arith) old_good
