-- ===== src/Vault/Layout/Plain.antt =====
-- The vault with plain names, plainLayout of internal/vault/layout.go, in one of its folders, and
-- the end of a write of internal/vault/cryptfs.go. Paths are names in that folder.
pub mod Writes
pub mod Tests
use shfm.Common.{
  ℕ, zero, suc, ◌+◌, Bool, true, false, ◌&&◌, ◌||◌, not, Option, none, some, List, [], ◌∷◌, ◌++◌,
  Bytes, codes, length, ltb, bytes_eq, has_prefix, if◌then◌else◌, ◌⊎◌, inl, inr, ◌==◌,
}
use shfm.Backend.{
  Disk, M, pure, ◌>>=◌, ◌>>◌, Reply, ok, failed, not_supported, Written, written, not_opened,
  broken, stat, list, create, mkdir, remove, rename,
}
use shfm.Backend.Nodes.{Node, file, folder}
use shfm.Vault.Store.{exists, remove_if_exists, tmp_suffix, bak_suffix}
use shfm.Vault.Layout.{move_file}
use shfm.Vault.Layout.Sizes.{plain_size}
use shfm.Vault.Layout.Names.{
  PlainLayout, Fault, is_locked, invalid, name_too_long, reserved_name, exist, not_exist,
  is_directory, vault_in_vault, backend, Done, longest_name, age, temp_prefix, blob_path,
  valid_name, reserved_root, stored_name, vault_signature, temp_blob, cut_suffix, PlainEntry,
  dir_entry, file_entry, check, entry_shown,
}

abbrev done_of : Reply → Done
done_of ok = none
done_of r = some (backend r)

-- `if err != nil { return err }` before a last step.
abbrev then_do : Reply → M Reply → M Done
then_do ok m = do r ← m; pure (done_of r)
then_do failed m = pure (done_of failed)
then_do not_supported m = pure (done_of not_supported)

abbrev branch : Bool → M Done → M Done → M Done
branch true m k = m
branch false m k = k

is_folder : Option Node → Bool
is_folder (some (folder t)) = true
is_folder o = false

is_regular : Option Node → Bool
is_regular (some (file c t)) = true
is_regular o = false

module _ (l : PlainLayout) where
  abbrev if_live : M Done → M Done
  if_live m d = if l.locked then (some is_locked, d) else m d

  abbrev if_none : Done → M Done → M Done
  if_none none m = m
  if_none (some e) m = pure (some e)

  add_shown : Option PlainEntry → List PlainEntry → List PlainEntry
  add_shown none es = es
  add_shown (some e) es = e ∷ es

  unfoldable pub all_shown : List (Bytes × Node) → List PlainEntry
  unfolding entry_shown add_shown
  all_shown [] = []
  all_shown ((s, v) ∷ nodes) = add_shown (entry_shown l s v) (all_shown nodes)

  listed_from : Option (List (Bytes × Node)) → Fault ⊎ List PlainEntry
  unfolding all_shown
  listed_from none = inl (backend failed)
  listed_from (some nodes) = inr (all_shown nodes)

  unfoldable pub list_plain : M (Fault ⊎ List PlainEntry)
  unfolding listed_from list
  list_plain d = if l.locked then (inl is_locked, d) else (do o ← list; pure (listed_from o)) d

  stat_folder : Bytes → Option Node → Fault ⊎ PlainEntry
  stat_folder n (some (folder t)) = inr (dir_entry n t)
  stat_folder n o = inl not_exist

  stat_file : Bytes → Option Node → M (Fault ⊎ PlainEntry)
  unfolding stat_folder stat plain_size
  stat_file n (some (file c t)) = pure (inr (file_entry n (plain_size l.overhead (length c)) t))
  stat_file n o = do e ← stat n; pure (stat_folder n e)

  both_refused : Done → Done → Bool
  both_refused (some e) (some f) = true
  both_refused a b = false

  -- Of a path that is not the root.
  unfoldable pub stat_plain : Bytes → M (Fault ⊎ PlainEntry)
  unfolding stat_file blob_path both_refused check stat
  stat_plain n d =
      if l.locked
      then (inl is_locked, d)
      else if both_refused (check l n true) (check l n false)
      then (inl not_exist, d)
      else (do e ← stat (blob_path n); stat_file n e) d

  unfoldable pub mkdir_plain : Bytes → M Done
  unfolding check blob_path exists mkdir
  mkdir_plain n = if_live (
      if_none (check l n true) (do
        e ← exists (blob_path n)
        branch e (pure (some exist)) (do r ← mkdir n; pure (done_of r))))

  remove_folder : Bytes → Option Node → M Done
  unfolding check remove
  remove_folder n (some (folder t)) d = elim (check l n true) [
    | none ↦ (do r ← remove n; pure (done_of r)) d
    | some e ↦ (some not_exist, d)
  ]
  remove_folder n o d = (some not_exist, d)

  -- Of a path that is not the root.
  unfoldable pub remove_plain : Bytes → M Done
  unfolding remove_folder blob_path exists remove stat
  remove_plain n = if_live (do
    e ← exists (blob_path n)
    branch e (do r ← remove (blob_path n); pure (done_of r)) (do o ← stat n; remove_folder n o))

  clash_with : Option Bytes → M Bool
  unfolding is_regular blob_path stat
  clash_with none = pure false
  clash_with (some other) = do o ← stat (blob_path other); pure (is_regular o)

  unfoldable pub signature_clash : Bytes → M Bool
  unfolding clash_with vault_signature
  signature_clash n = clash_with (vault_signature n)

  -- Whether the other of the two signature files is `old` itself.
  is_other : Option Bytes → Bytes → Bool
  is_other none old = false
  is_other (some other) old = bytes_eq other old

  move_blob : Bytes → Bytes → M Done
  unfolding blob_path remove_if_exists rename
  move_blob old new = do
    r ← remove_if_exists (blob_path new)
    then_do r (rename (blob_path old) (blob_path new))

  rename_file : Bytes → Bytes → M Done
  unfolding check is_folder is_other move_blob signature_clash vault_signature stat
  rename_file old new = if_none (check l new false) (do
    o ← stat new
    branch (is_folder o) (pure (some exist)) (do
      clash ← signature_clash new
      branch (clash && not (is_other (vault_signature new) old)) (pure (some vault_in_vault))
          (move_blob old new)))

  rename_free : Bytes → Bytes → M Done
  unfolding blob_path exists rename
  rename_free old new = do
    e ← exists (blob_path new)
    branch e (pure (some exist))
        (do f ← exists new; branch f (pure (some exist)) (do r ← rename old new; pure (done_of r)))

  rename_folder : Bytes → Bytes → M Done
  unfolding rename_free check is_folder stat
  rename_folder old new = do
    o ← stat old
    branch (is_folder o) (if_none (check l new true) (rename_free old new)) (pure (some not_exist))

  -- Within the folder, so that neither path is the root or inside the other.
  unfoldable pub rename_plain : Bytes → Bytes → M Done
  unfolding rename_file rename_folder blob_path exists
  rename_plain old new = if_live (
      branch (bytes_eq old new) (pure none)
        (do e ← exists (blob_path old); branch e (rename_file old new) (rename_folder old new)))

  -- The name of the file that holds the content of file `n`.
  unfoldable pub blob_plain : Bytes → Fault ⊎ Bytes
  unfolding check blob_path
  blob_plain n =
      if l.locked
      then inl is_locked
      else elim (check l n false) [ none ↦ inr (blob_path n) | some e ↦ inl not_exist ]

  -- Whether a file `n` can be written, into `temp_blob` of a new ID.
  unfoldable pub begin_write : Bytes → M Done
  unfolding check is_folder signature_clash stat
  begin_write n = if_live (
      if_none (check l n false) (do
        o ← stat n
        branch (is_folder o) (pure (some is_directory))
            (do clash ← signature_clash n; pure (if clash then some vault_in_vault else none))))

  unfoldable pub commit : Bytes → Bytes → M Done
  unfolding blob_path remove_if_exists move_file
  commit id n = do
    r ← remove_if_exists (blob_path n)
    then_do r (move_file (temp_blob id) (blob_path n))

  unfoldable pub abort : Bytes → M Reply
  unfolding remove_if_exists temp_blob
  abort id = remove_if_exists (temp_blob id)

  -- encryptWriter.Close: what fails is dropped.
  abort_if : Bytes → Done → M Done
  unfolding abort
  abort_if id none = pure none
  abort_if id (some e) = do abort id; pure (some e)

  after_create : Written → Bytes → Bytes → M Done
  unfolding commit abort_if
  after_create written id n = do r ← commit id n; abort_if id r
  after_create not_opened id n = pure (some (backend failed))
  after_create broken id n = abort_if id (some (backend failed))

  -- FS.Create or CreateSized, all writes and Close of a file with encrypted content `c`.
  unfoldable pub write_plain : Bytes → Bytes → Bytes → M Done
  unfolding begin_write after_create create temp_blob
  write_plain id n c = do
    e ← begin_write n
    if_none e (do w ← create (temp_blob id) c; after_create w id n)
