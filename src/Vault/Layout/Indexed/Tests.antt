-- ===== src/Vault/Layout/Indexed/Tests.antt =====
-- A first file in an empty folder, on a backend that works and on one that fails near the end.
use shfm.Common.Dict.{lookup}
use shfm.Common.{
  ◌≡◌, refl, true, false, Option, none, some, List, [], ◌∷◌, Bytes, codes, bytes_eq, if◌then◌else◌,
  ◌==◌,
}
use shfm.Backend.{Disk, success, refused, failed, read, create, rename, remove}
use shfm.Backend.Nodes.{file, find, put, delete}
use shfm.Vault.Store.{loaded, read_small_versions, read_small}
use shfm.Vault.Store.ReadBack.{settled}
use shfm.Vault.Index.{IndexEntry, blob, reindex}
use shfm.Vault.Layout.Names.{backend}
use shfm.Vault.Layout.Indexed.{IndexFolder, index_file}
use shfm.Vault.Layout.Indexed.Changes.{commit_index, abort_index}

abbrev entry : IndexEntry
entry = record { id = codes "k"; name = codes "a"; is_dir = false; size = 1; mtime = 9 }

abbrev seal : List IndexEntry → Bytes
seal [] = 1 ∷ []
seal (e ∷ es) = 2 ∷ 3 ∷ []

abbrev open_sealed : Bytes → Option (List IndexEntry)
open_sealed [] = none
open_sealed (c ∷ []) = if c == 1 then some [] else none
open_sealed (c ∷ d ∷ s) = some (entry ∷ [])

abbrev folder_with : Disk → IndexFolder
folder_with d = record { disk = d; unlocked = true; cached = none }

abbrev disk : Disk
disk = record {
  nodes = (index_file, file (1 ∷ []) 0) ∷ (codes "k.age", file (codes "x") 0) ∷ [];
  script = [];
  sized = false;
  clock = 1;
}

-- The new index is complete and its last step fails: the writer drops the blob that it names.
abbrev late : IndexFolder
late =
    folder_with
      (record disk { script = success ∷ success ∷ success ∷ success ∷ success ∷ refused ∷ [] })

abbrev aborted : IndexFolder
aborted = (abort_index seal open_sealed entry (commit_index seal open_sealed entry late).1).1

commit_fails : (commit_index seal open_sealed entry late).0 ≡ some (backend failed)
unfolding commit_index read find bytes_eq lookup reindex create put rename
commit_fails = refl

index_names_it :
    (read_small_versions open_sealed index_file true (settled aborted.disk)).0 ≡ loaded (entry ∷ [])
unfolding read_small_versions read_small read find abort_index commit_index bytes_eq lookup reindex
    create put rename delete blob remove
index_names_it = refl

blob_gone : find (blob entry) aborted.disk.nodes ≡ none
unfolding find abort_index commit_index read bytes_eq lookup reindex create put rename delete blob
    remove
blob_gone = refl
