-- ===== src/Vault/Layout.antt =====
-- internal/vault/layout.go: moving a file of any size within a folder.
pub mod Move
pub mod Sizes
pub mod Names
pub mod Plain
pub mod Indexed
use shfm.Common.{Bool, true, false, Option, none, some, Bytes}
use shfm.Backend.{
  Disk, M, pure, ◌>>=◌, ◌>>◌, Reply, ok, failed, not_supported, Written, written, not_opened,
  broken, stat, read, create, remove, rename, if_unsupported,
}
use shfm.Vault.Store.{remove_if_exists}

-- After the new file was written, or not: a file that was cut off is removed.
after_copy : Written → Bytes → Bytes → M Reply
after_copy written from to = remove from
after_copy not_opened from to = pure failed
after_copy broken from to = do remove_if_exists to; pure failed

-- A backend that wants the size first is asked for it.
ask_size : Bool → Bytes → M Bool
ask_size true from = do e ← stat from; pure (elim e [ none ↦ false | some v ↦ true ])
ask_size false from = pure true

create_copy : Bool → Bytes → Bytes → Bytes → M Reply
unfolding after_copy
create_copy true c from to = do w ← create to c; after_copy w from to
create_copy false c from to = pure failed

copy_file : Option Bytes → Bytes → Bytes → M Reply
unfolding create_copy ask_size
copy_file none from to d = (failed, d)
copy_file (some c) from to d = (do known ← ask_size d.sized from; create_copy known c from to) d

-- Renamed, or copied and removed where the backend can't rename.
unfoldable pub move_file : Bytes → Bytes → M Reply
unfolding copy_file
move_file from to = do r ← rename from to; if_unsupported r (do c ← read from; copy_file c from to)
