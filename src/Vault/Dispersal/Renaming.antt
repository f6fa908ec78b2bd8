-- ===== src/Vault/Dispersal/Renaming.antt =====
-- The loop of Rename for a file within its folder: its shards are renamed part by part, and a failure
-- is undone. The lookups and the removal of the shards of a file at the new name before the loop, and
-- the removal of other generations after it, are not part of this.
pub mod Back
pub mod Moved
use shfm.Common.{Bool, true, false, ℕ, zero, suc, Option, none, some, [], Bytes}
use shfm.Backend.{Disk, M, pure, Reply, ok, failed, not_supported, rename}
use shfm.Vault.Dispersal.Names.{shard_name}
use shfm.Vault.Dispersal.Generation.{Three, three, Generation}
use shfm.Vault.Dispersal.Listing.{
  Listing, Listed, listed, not_listed, list_parts, Found, dir, generation, nothing, lookup_entry,
}
use shfm.Vault.Dispersal.Writing.{remove_shards, connected}

module _ (old new : Bytes) (g : Generation) where
  abbrev pub old_shard : ℕ → Bytes
  old_shard i = shard_name old g.gen i g.pad

  abbrev pub new_shard : ℕ → Bytes
  new_shard i = shard_name new g.gen i g.pad

  -- The shard of a part that has one is renamed.
  rename_shard : ℕ → Bool → M Reply
  rename_shard i true = rename (old_shard i) (new_shard i)
  rename_shard i false = pure ok

  -- A rename is undone, whether that succeeds or not.
  undo_rename : ℕ → Bool → Disk → Disk
  undo_rename i true d = (rename (new_shard i) (old_shard i) d).1
  undo_rename i false d = d

  undo_two : Three Disk → Three Disk
  unfolding undo_rename
  undo_two ds = three (undo_rename 0 g.have.p0 ds.p0) (undo_rename 1 g.have.p1 ds.p1) ds.p2

  undo_one : Three Disk → Three Disk
  unfolding undo_rename
  undo_one ds = three (undo_rename 0 g.have.p0 ds.p0) ds.p1 ds.p2

  rename_third : Reply → Three Disk → Reply × Three Disk
  unfolding undo_two
  rename_third ok ds = (ok, ds)
  rename_third failed ds = (failed, undo_two ds)
  rename_third not_supported ds = (not_supported, undo_two ds)

  rename_second : Reply → Three Disk → Reply × Three Disk
  unfolding rename_third rename_shard undo_one
  rename_second ok ds =
      let (r, d) = rename_shard 2 g.have.p2 ds.p2 in rename_third r (three ds.p0 ds.p1 d)
  rename_second failed ds = (failed, undo_one ds)
  rename_second not_supported ds = (not_supported, undo_one ds)

  rename_first : Reply → Three Disk → Reply × Three Disk
  unfolding rename_second
  rename_first ok ds =
      let (r, d) = rename_shard 1 g.have.p1 ds.p1 in rename_second r (three ds.p0 d ds.p2)
  rename_first failed ds = (failed, ds)
  rename_first not_supported ds = (not_supported, ds)

  unfoldable pub rename_shards : Three Disk → Reply × Three Disk
  unfolding rename_first
  rename_shards ds =
      let (r, d) = rename_shard 0 g.have.p0 ds.p0 in rename_first r (three d ds.p1 ds.p2)
