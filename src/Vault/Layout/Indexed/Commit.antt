-- ===== src/Vault/Layout/Indexed/Commit.antt =====
-- The index after a write was committed, for indexLayout of internal/vault/layout.go.
use shfm.Common.{◌++◌, ◌≡◌, ◌≢◌, Option, none, some, List, Bytes}
use shfm.Vault.Store.{tmp_suffix}
use shfm.Vault.Store.Replace.{Holds, IsRecoverable}
use shfm.Vault.Index.{IndexEntry, Index, blob, put_entry}
use shfm.Vault.Layout.Names.{Done}
use shfm.Vault.Layout.Indexed.{IndexFolder, index_file, index_of, sort_entries}

-- The entries of the folder once `e` is among them.
unfoldable pub entries_with : IndexEntry → List IndexEntry → List IndexEntry
entries_with e es = sort_entries (put_entry e (index_of es)).entries

module _ (seal : List IndexEntry → Bytes) (open_sealed : Bytes → Option (List IndexEntry))
    (old : Bytes) (e : IndexEntry) (es : List IndexEntry) where
  abbrev pub new : Bytes
  new = seal (entries_with e es)

  -- What a commit leaves on the backend, and how it ends.
  abbrev Left : Done × IndexFolder → Type 0
  Left (r, s) = IsRecoverable index_file old new s.disk × (r ≡ none → Holds index_file new s.disk)

  -- The old blob is no part of the index.
  abbrev pub IsApart : Option IndexEntry → Type 0
  IsApart none = Unit
  IsApart (some d) = (blob d ≢ index_file) × (blob d ≢ index_file ++ tmp_suffix)
