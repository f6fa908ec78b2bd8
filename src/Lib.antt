-- ===== src/Lib.antt =====
-- Verification of shfm, a terminal file manager that works on many storage backends.
--
-- The program's backends (local, SMB, NFS, SFTP, MTP, cloud) implement one interface, FileSystem
-- of internal/vfs/vfs.go; what is built upon them only calls that interface. This development
-- models the parts that keep the user's data safe on backends that fail:
--
--  - Backend.antt: one folder of a backend, as nodes by name, and a script of outcomes, one for
--    each call: it succeeds, it does its work and still reports an error, it is refused, it is
--    not supported, or a write is cut off. Backend/Nodes has the
--    nodes, Backend/Frame what each call changes, Backend/Rules the reasoning about steps that
--    may fail.
--  - Vault/Store.antt: internal/vault/store.go, the vault's small files: exists, read_small,
--    write_small, remove_if_exists, rename_or_copy, replace, read_small_versions. Decoding (age
--    and JSON) is a parameter. Vault/Store/Replace follows `replace` through every call.
--  - Vault/Index.antt: the index of a folder with encrypted names, internal/vault/index.go: get, put,
--    remove and reindex.
--  - Vault/Layout.antt: moveFile of internal/vault/layout.go. Layout/Plain is plainLayout of that
--    file within one folder, with the writer's Close of internal/vault/cryptfs.go; encryption is
--    done already when a content is written. Layout/Sizes is cipherSize and plainSize of
--    internal/vault/enabled.go.
--  - Vault/Layout/Indexed.antt: indexLayout of internal/vault/layout.go within one folder, with
--    loadIndex, saveIndex and sealIndex of internal/vault/index.go: the state is the folder on the
--    backend, whether the vault is unlocked and the cached index. Sealing and opening (JSON and
--    age) are parameters, and a new ID and its time come with the entry. Indexed/Changes has the
--    operations that write, and Indexed/Commit follows a commit through Store's `replace`.
--  - Vault/Dispersal.antt: internal/vault/dispersal.go, the split vault, which stores every file
--    as three shards A, B and A xor B on three sources. Names (shardRE, shardName), Generation
--    (the shards of one write), Xor (xorReader), Reader (stepReader and io.Copy), Open (the readers
--    of a generation), Opening (Open by name), Random (dispersedRandom), Listing (list and lookup),
--    Writing (store, writeStream, removeShards), Removing (Remove), Renaming (the loop of Rename
--    over a file's shards, with its undo) and Repair (rebuild) are one module each. They meet in
--    Parts, the three folders of a file's folder, and in Generation.
--  - Mirror.antt: internal/mirror/generic.go: Tree (walk, unknown), Plan (the deletions, folders
--    and copies of runGeneric, needsCopy) and Run (the plan from the two folders).
--  - Archive/Symlink.antt: SafeSymlink of internal/archive/walk.go.
--  - Fileops/Meter.antt: the progress meter of internal/fileops/meter.go, whose locked calls are
--    steps in any order.
--  - Idle/Tracker.antt: the tracker of internal/idle/idle.go, with the functions that Begin returns.
--  - Drives/Mounts.antt: MountOf and isUnder of internal/drives/mountid.go. The list of mounts
--    and the UUIDs of devices are parameters.
--  - Trash.antt: internal/trash/trash.go and copyAny of internal/trash/copy.go. Encoding (the
--    paths in records), Record (writeTrashInfo and its reading) and Can (MoveToTrash, ListRoot,
--    Restore, Purge and Empty), whose calls of the os package fail as `Faults` says. Formatting
--    and parsing times are parameters. Choosing among several cans is left out.
--  - LocalSend/Names.antt: internal/localsend/names.go, the names of received files. A slice out
--    of range, which panics, is `none`. LocalSend/Receiving is free of
--    internal/localsend/receive.go, on the names in one folder that are claimed or that Stat
--    finds, and LocalSend/Target is its target, on the paths below the session's folder.
--  - Config/Keymap.antt: the key bindings of internal/config/keymap.go: the catalogue without its
--    descriptions, NormalizeKey, KeyMap and parseKeyMap. A Go map that is gone through in no set
--    order is a list in any order.
--
-- Common.antt passes on the library's names and has lists over the native numbers, byte strings,
-- maps, integers, bitwise laws, UTF-8, decimal numbers and splitting at a byte. Paths within a
-- folder are names; times are numbers. Strings are lists of byte values.
--
-- Fuel: io.Copy is recursion on fuel that counts calls of Read; more fuel than the content has
-- bytes is enough for a buffer of any size but zero. The loop of ReadAt makes at most two rounds
-- and a last test, so that a fuel of three is enough. The searches for a free name, in the can and
-- for a received file, try one name more than are taken. All other loops are structural.
--
-- Not modelled: nested folders of a vault with the mkdir and forget of encrypted names, the
-- cache of listings but for its use by Open, closing of readers, the dispersal of folders
-- over nested paths, the rest of Rename, carrying out a mirror's plan, the
-- encryption itself, the backends, and the user interface, which are input and output or are
-- left for extensions of this library. The three parts of a split vault share no state, so that
-- calls made to them at once are modelled one after the other. Sizes and offsets are far below
-- the range of int64 and are not wrapped.
pub mod Archive
pub mod Backend
pub mod Common
pub mod Config
pub mod Drives
pub mod Fileops
pub mod Idle
pub mod LocalSend
pub mod Mirror
pub mod Trash
pub mod Vault
