-- ===== src/Vault/Layout/Indexed.antt =====
-- The vault with encrypted names in one of its folders: indexLayout of internal/vault/layout.go,
-- with loadIndex and saveIndex of internal/vault/index.go. Paths are names in that folder. `seal`
-- and `open_sealed` stand for JSON and age.
pub mod Changes
pub mod Sorted
pub mod Commit
pub mod Tests
use shfm.Common.{
  ℕ, Bool, true, false, not, ◌&&◌, Option, none, some, List, [], ◌∷◌, ◌++◌, Bytes, codes, bytes_eq,
  if◌then◌else◌, ◌⊎◌, inl, inr, map,
}
use shfm.Backend.{Disk, M, Reply, ok, failed, not_supported, rename}
use shfm.Mirror.Plan.{str_ltb}
use shfm.Vault.Store.{
  Loaded, loaded, unreadable, not_exist as missing, undecodable, read_failed, read_small_versions,
  replace, remove_if_exists,
}
use shfm.Vault.Index.{IndexEntry, Index, blob, reindex, get, put_entry, remove_name}
use shfm.Vault.Layout.Names.{
  Fault, Done, is_locked, invalid, exist, not_exist, is_directory, vault_in_vault, damaged, backend,
  valid_name, vault_signature, PlainEntry, dir_entry, file_entry,
}

-- The folder on the backend, whether the vault is unlocked, and the folder's cached index.
pub record IndexFolder : Type 0 where
  pub disk : Disk
  pub unlocked : Bool
  pub cached : Option Index

abbrev pub index_file : Bytes
index_file = codes ".index.age"

-- sort.Slice by name, of names that are not twice there
unfoldable pub insert_entry : IndexEntry → List IndexEntry → List IndexEntry
unfolding str_ltb
insert_entry e [] = e ∷ []
insert_entry e (d ∷ es) =
    let rest = insert_entry e es in if str_ltb d.name e.name then d ∷ rest else e ∷ d ∷ es

unfoldable pub sort_entries : List IndexEntry → List IndexEntry
unfolding insert_entry
sort_entries [] = []
sort_entries (e ∷ es) = insert_entry e (sort_entries es)

abbrev pub index_of : List IndexEntry → Index
index_of es = reindex (record { version = 1; entries = es; by_name = [] })

abbrev pub LoadAnswer : Type 0 → Type 0
LoadAnswer A = (Fault ⊎ A) × IndexFolder

abbrev pub with_disk : Disk → IndexFolder → IndexFolder
with_disk d s = record s { disk = d }

abbrev pub with_cache : Option Index → IndexFolder → IndexFolder
with_cache x s = record s { cached = x }

-- What an error ends, and a value goes on with.
abbrev pub on_value :
    {A B : Type 0} → (A → IndexFolder → LoadAnswer B) → LoadAnswer A → LoadAnswer B
on_value k (inl e, s) = (inl e, s)
on_value k (inr a, s) = k a s

abbrev pub on_done :
    {A : Type 0} → (A → IndexFolder → Done × IndexFolder) → LoadAnswer A → Done × IndexFolder
on_done k (inl e, s) = (some e, s)
on_done k (inr a, s) = k a s

module _ (seal : List IndexEntry → Bytes) (open_sealed : Bytes → Option (List IndexEntry)) where
  -- The index that was read is cached.
  load_read : Loaded (List IndexEntry) → IndexFolder → LoadAnswer Index
  load_read (loaded es) s = (inr (index_of es), with_cache (some (index_of es)) s)
  load_read (unreadable undecodable) s = (inl damaged, s)
  load_read (unreadable read_failed) s = (inl (backend failed), s)
  load_read missing s = (inl not_exist, s)

  load_fresh : IndexFolder → LoadAnswer Index
  unfolding load_read read_small_versions
  load_fresh s =
      let (o, d) = read_small_versions open_sealed index_file true s.disk in
      load_read o (with_disk d s)

  load_from : Option Index → IndexFolder → LoadAnswer Index
  unfolding load_fresh
  load_from none s = load_fresh s
  load_from (some x) s = (inr x, s)

  unfoldable pub load_index : Bool → IndexFolder → LoadAnswer Index
  unfolding load_from
  load_index fresh s =
      if s.unlocked then load_from (if fresh then none else s.cached) s else (inl is_locked, s)

  unfoldable pub seal_index : Index → Bytes
  unfolding sort_entries
  seal_index x = seal (sort_entries x.entries)

  -- After a failed save, the cache is dropped.
  saved : Index → Reply → IndexFolder → Done × IndexFolder
  saved x ok s = (none, with_cache (some x) s)
  saved x r s = (some (backend r), with_cache none s)

  save_unlocked : Index → IndexFolder → Done × IndexFolder
  unfolding saved replace seal_index
  save_unlocked x s =
      let (r, d) = replace index_file (seal_index x) true s.disk in saved x r (with_disk d s)

  unfoldable pub save_index : Index → IndexFolder → Done × IndexFolder
  unfolding save_unlocked
  save_index x s = if s.unlocked then save_unlocked x s else (some is_locked, s)

  -- An entry that the cache does not have is looked for in the folder.
  look_again :
      Bool
      → Bytes
      → Index
      → Option IndexEntry
      → IndexFolder
      → LoadAnswer (Index × Option IndexEntry)
  unfolding load_index get
  look_again false n x none s = on_value (λ y t. (inr (y, get y n), t)) (load_index true s)
  look_again fresh n x o s = (inr (x, o), s)

  unfoldable pub lookup_name : Bool → Bytes → IndexFolder → LoadAnswer (Index × Option IndexEntry)
  unfolding look_again load_index get
  lookup_name fresh n s = on_value (λ x t. look_again fresh n x (get x n) t) (load_index fresh s)

  -- entry.toVFS
  unfoldable pub to_entry : IndexEntry → PlainEntry
  to_entry e =
      if e.is_dir then dir_entry e.name e.mtime else file_entry e.name (some e.size) e.mtime

  unfoldable pub list_index : IndexFolder → LoadAnswer (List PlainEntry)
  unfolding load_index to_entry
  list_index s = on_value (λ x t. (inr (map to_entry x.entries), t)) (load_index true s)

  stat_found : Option IndexEntry → Fault ⊎ PlainEntry
  unfolding to_entry
  stat_found none = inl not_exist
  stat_found (some e) = inr (to_entry e)

  -- Of a path that is not the root.
  unfoldable pub stat_index : Bytes → IndexFolder → LoadAnswer PlainEntry
  unfolding lookup_name stat_found
  stat_index n s = on_value (λ f t. (stat_found f.1, t)) (lookup_name false n s)

  blob_found : Option IndexEntry → Fault ⊎ Bytes
  blob_found none = inl not_exist
  blob_found (some e) = if e.is_dir then inl is_directory else inr (blob e)

  unfoldable pub blob_index : Bytes → IndexFolder → LoadAnswer Bytes
  unfolding lookup_name blob_found
  blob_index n s = on_value (λ f t. (blob_found f.1, t)) (lookup_name false n s)
