-- ===== src/Vault/Dispersal/Repair.antt =====
-- rebuild: the shards that a generation lacks are written again, from the file read back whole. The
-- file is opened by its name, so that lookup may find another generation than the one that is rebuilt.
pub mod Rebuilt
use shfm.Common.{ℕ, Bool, true, false, Option, none, some, [], Bytes}
use shfm.Backend.{Disk, M, pure, list, ◌>>=◌, ◌>>◌, Reply, ok, failed, not_supported}
use shfm.Vault.Store.{remove_if_exists}
use shfm.Vault.Dispersal.Generation.{Three, three, at, Generation}
use shfm.Vault.Dispersal.Xor.{shards}
use shfm.Vault.Dispersal.Listing.{Listing}
use shfm.Vault.Dispersal.Opening.{open_file, copy_opened}
use shfm.Vault.Dispersal.Writing.{write_stream, temp_name, move_part, connected}

-- The parts, which are connected, once a fresh listing has asked them.
unfoldable pub asked : Option Listing → Three Disk → Three Disk
unfolding list
asked none ds = three (list ds.p0).1 (list ds.p1).1 (list ds.p2).1
asked (some l) ds = ds

module _ (name : Bytes) (g : Generation) where
  -- A failed write or move removes the temporary file.
  undo : ℕ → Reply → M Reply
  undo i ok = pure ok
  undo i failed = do remove_if_exists (temp_name g.gen i); pure failed
  undo i not_supported = do remove_if_exists (temp_name g.gen i); pure failed

  move_rebuilt : Bytes → ℕ → Reply → M Reply
  unfolding undo
  move_rebuilt c i ok = do r ← move_part name g.gen c i; undo i r
  move_rebuilt c i failed = undo i failed
  move_rebuilt c i not_supported = undo i not_supported

  rebuild_part : Bytes → ℕ → Bool → M Reply
  unfolding move_rebuilt
  rebuild_part c i true = pure ok
  rebuild_part c i false = do
    r ← write_stream (temp_name g.gen i) (at i (shards c))
    move_rebuilt c i r

  rebuild_third : Bytes → Reply → Three Disk → Reply × Three Disk
  unfolding rebuild_part
  rebuild_third c ok ds = let (r, d) = rebuild_part c 2 g.have.p2 ds.p2 in (r, three ds.p0 ds.p1 d)
  rebuild_third c failed ds = (failed, ds)
  rebuild_third c not_supported ds = (failed, ds)

  rebuild_second : Bytes → Reply → Three Disk → Reply × Three Disk
  unfolding rebuild_third
  rebuild_second c ok ds =
      let (r, d) = rebuild_part c 1 g.have.p1 ds.p1 in rebuild_third c r (three ds.p0 d ds.p2)
  rebuild_second c failed ds = (failed, ds)
  rebuild_second c not_supported ds = (failed, ds)

  pub rebuild_parts : Bytes → Three Disk → Reply × Three Disk
  unfolding rebuild_second
  rebuild_parts c ds =
      let (r, d) = rebuild_part c 0 g.have.p0 ds.p0 in rebuild_second c r (three d ds.p1 ds.p2)

  rebuild_from : Option Bytes → Three Disk → Reply × Three Disk
  unfolding rebuild_parts
  rebuild_from none ds = (failed, ds)
  rebuild_from (some c) ds = rebuild_parts c ds

  -- The file is opened by its name, with the folder's listing cached or fresh, and copied with a
  -- buffer of `k` bytes, in at most `fuel` reads.
  unfoldable pub rebuild : Option Listing → ℕ → ℕ → Three Disk → Reply × Three Disk
  unfolding rebuild_from open_file copy_opened
  rebuild cached fuel k ds =
      rebuild_from (copy_opened fuel k (open_file cached name (connected ds))) (asked cached ds)
