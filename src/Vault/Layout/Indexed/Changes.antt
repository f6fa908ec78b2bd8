-- ===== src/Vault/Layout/Indexed/Changes.antt =====
-- What changes a folder of a vault with encrypted names: remove, rename, beginWrite with its commit
-- and abort, and chtimes of indexLayout, internal/vault/layout.go.
use shfm.Common.{
  ℕ, Bool, true, false, not, ◌&&◌, Option, none, some, List, [], Bytes, bytes_eq, if◌then◌else◌,
}
use shfm.Backend.{Reply, ok}
use shfm.Vault.Store.{remove_if_exists}
use shfm.Vault.Index.{IndexEntry, Index, blob, get, put_entry, remove_name}
use shfm.Vault.Layout.Names.{
  Done, invalid, exist, not_exist, is_directory, vault_in_vault, backend, valid_name,
  vault_signature,
}
use shfm.Vault.Layout.Indexed.{IndexFolder, with_disk, on_done, load_index, save_index, lookup_name}

module _ (seal : List IndexEntry → Bytes) (open_sealed : Bytes → Option (List IndexEntry)) where
  unfoldable pub after_done :
      (IndexFolder → Done × IndexFolder) → Done × IndexFolder → Done × IndexFolder
  after_done k (none, s) = k s
  after_done k (some e, s) = (some e, s)

  abbrev done_reply : Reply → Done
  done_reply ok = none
  done_reply r = some (backend r)

  -- removeIfExists, as a call's last step, and where its error is not looked at.
  drop_blob : Bytes → IndexFolder → Done × IndexFolder
  unfolding remove_if_exists
  drop_blob b s = let (r, d) = remove_if_exists b s.disk in (done_reply r, with_disk d s)

  unfoldable pub drop_old : Option IndexEntry → IndexFolder → Done × IndexFolder
  unfolding remove_if_exists
  drop_old none s = (none, s)
  drop_old (some e) s = (none, with_disk (remove_if_exists (blob e) s.disk).1 s)

  entry_to_remove : Index → Option IndexEntry → IndexFolder → Done × IndexFolder
  unfolding save_index remove_name after_done drop_blob
  entry_to_remove x none s = (some not_exist, s)
  entry_to_remove x (some e) s =
      after_done (drop_blob (blob e)) (save_index seal open_sealed (remove_name e.name x) s)

  -- Of a path that is not the root. The cached indexes of a folder's own folders go with it.
  unfoldable pub remove_index : Bytes → IndexFolder → Done × IndexFolder
  unfolding lookup_name entry_to_remove
  remove_index n s =
      on_done (λ f t. entry_to_remove f.0 f.1 t) (lookup_name seal open_sealed true n s)

  is_regular_entry : Option IndexEntry → Bool
  is_regular_entry none = false
  is_regular_entry (some e) = not e.is_dir

  -- Whether the folder has the other of a vault's two signature files, `old` not counted.
  has_other : Option Bytes → Index → Bytes → Bool
  unfolding is_regular_entry get
  has_other none x old = false
  has_other (some other) x old = is_regular_entry (get x other) && not (bytes_eq other old)

  in_the_way : Option IndexEntry → IndexEntry → Bool
  in_the_way none e = false
  in_the_way (some target) e = if target.is_dir then true else e.is_dir

  -- `ox` and `nx` are what the two lookups loaded.
  rename_to :
      Index → Index → IndexEntry → Bytes → Option IndexEntry → IndexFolder → Done × IndexFolder
  unfolding in_the_way has_other save_index after_done drop_old remove_name put_entry
      vault_signature
  rename_to ox nx e new target s =
      if in_the_way target e
      then (some exist, s)
      else if not e.is_dir && has_other (vault_signature new) nx e.name
      then (some vault_in_vault, s)
      else after_done (drop_old target) (
          save_index seal open_sealed (put_entry (record e { name = new }) (remove_name e.name ox))
            s)

  rename_found : Bytes → Index → Option IndexEntry → IndexFolder → Done × IndexFolder
  unfolding rename_to lookup_name
  rename_found new ox none s = (some not_exist, s)
  rename_found new ox (some e) s =
      on_done (λ f t. rename_to ox f.0 e new f.1 t) (lookup_name seal open_sealed true new s)

  -- Within the folder.
  unfoldable pub rename_index : Bytes → Bytes → IndexFolder → Done × IndexFolder
  unfolding lookup_name rename_found valid_name
  rename_index old new s =
      if not (valid_name new)
      then (some invalid, s)
      else if bytes_eq old new
      then (none, s)
      else on_done (λ f t. rename_found new f.0 f.1 t) (lookup_name seal open_sealed true old s)

  unfoldable pub is_dir_entry : Option IndexEntry → Bool
  is_dir_entry none = false
  is_dir_entry (some e) = e.is_dir

  begin_found : Bytes → Index → Option IndexEntry → IndexFolder → Done × IndexFolder
  unfolding is_dir_entry has_other vault_signature
  begin_found n x o s =
      if is_dir_entry o
      then (some is_directory, s)
      else (if has_other (vault_signature n) x [] then some vault_in_vault else none, s)

  -- Whether a file `n` can be written, into the blob of a new ID.
  unfoldable pub begin_write_index : Bytes → IndexFolder → Done × IndexFolder
  unfolding lookup_name begin_found valid_name
  begin_write_index n s =
      if valid_name n
      then on_done (λ f t. begin_found n f.0 f.1 t) (lookup_name seal open_sealed false n s)
      else (some invalid, s)

  -- The new blob's entry, over the index that the folder has by then.
  unfoldable pub commit_loaded : IndexEntry → Index → IndexFolder → Done × IndexFolder
  unfolding is_dir_entry save_index after_done drop_old get put_entry
  commit_loaded e x s =
      if is_dir_entry (get x e.name)
      then (some is_directory, s)
      else after_done (drop_old (get x e.name)) (save_index seal open_sealed (put_entry e x) s)

  unfoldable pub commit_index : IndexEntry → IndexFolder → Done × IndexFolder
  unfolding load_index commit_loaded
  commit_index e s = on_done (λ x t. commit_loaded e x t) (load_index seal open_sealed true s)

  unfoldable pub abort_index : IndexEntry → IndexFolder → Done × IndexFolder
  unfolding drop_old
  abort_index e s = drop_old (some e) s

  chtimes_found : ℕ → Index → Option IndexEntry → IndexFolder → Done × IndexFolder
  unfolding save_index put_entry
  chtimes_found mtime x none s = (some not_exist, s)
  chtimes_found mtime x (some e) s =
      save_index seal open_sealed (put_entry (record e { mtime = mtime }) x) s

  -- Of a path that is not the root, and a time that is not zero.
  unfoldable pub chtimes_index : Bytes → ℕ → IndexFolder → Done × IndexFolder
  unfolding lookup_name chtimes_found
  chtimes_index n mtime s =
      on_done (λ f t. chtimes_found mtime f.0 f.1 t) (lookup_name seal open_sealed true n s)
