-- ===== src/Vault/Index.antt =====
-- internal/vault/index.go: a folder's index, its entries with the map from names to positions.
pub mod View
pub mod Tests
use shfm.Common.{
  ℕ, zero, suc, ◌+◌, Bool, true, false, Option, none, some, List, [], ◌∷◌, ◌++◌, Bytes, codes,
  length, if◌then◌else◌,
}
use shfm.Common.Dict.{lookup, insert}

pub record IndexEntry : Type 0 where
  pub id : Bytes
  pub name : Bytes
  pub is_dir : Bool
  pub size : ℕ
  pub mtime : ℕ

-- The entry's name on the backend.
unfoldable pub blob : IndexEntry → Bytes
blob e = if e.is_dir then e.id else e.id ++ codes ".age"

pub record Index : Type 0 where
  pub version : ℕ
  pub entries : List IndexEntry
  pub by_name : List (Bytes × ℕ)

pub reindex_from : ℕ → List IndexEntry → List (Bytes × ℕ) → List (Bytes × ℕ)
reindex_from i [] m = m
reindex_from i (e ∷ es) m = reindex_from (suc i) es (insert e.name i m)

unfoldable pub reindex : Index → Index
unfolding reindex_from
reindex x = record x { by_name = reindex_from 0 x.entries [] }

-- `Entries[i]`; out of range is a panic, none.
unfoldable pub entry_at : ℕ → List IndexEntry → Option IndexEntry
entry_at i [] = none
entry_at zero (e ∷ es) = some e
entry_at (suc i) (e ∷ es) = entry_at i es

unfoldable pub set_entry : ℕ → IndexEntry → List IndexEntry → List IndexEntry
set_entry i e [] = []
set_entry zero e (d ∷ es) = e ∷ es
set_entry (suc i) e (d ∷ es) = d ∷ set_entry i e es

-- `append(Entries[:i], Entries[i+1:]...)`
pub cut_entry : ℕ → List IndexEntry → List IndexEntry
cut_entry i [] = []
cut_entry zero (e ∷ es) = es
cut_entry (suc i) (e ∷ es) = e ∷ cut_entry i es

get_as : Option ℕ → List IndexEntry → Option IndexEntry
get_as none es = none
get_as (some i) es = entry_at i es

unfoldable pub get : Index → Bytes → Option IndexEntry
unfolding get_as entry_at
get x name = get_as (lookup name x.by_name) x.entries

put_as : Option ℕ → IndexEntry → Index → Index
put_as (some i) e x = record x { entries = set_entry i e x.entries }
put_as none e x = record x {
  entries = x.entries ++ e ∷ [];
  by_name = insert e.name (length x.entries) x.by_name;
}

unfoldable pub put_entry : IndexEntry → Index → Index
unfolding put_as set_entry
put_entry e x = put_as (lookup e.name x.by_name) e x

remove_as : Option ℕ → Index → Index
remove_as none x = x
remove_as (some i) x = reindex (record x { entries = cut_entry i x.entries })

unfoldable pub remove_name : Bytes → Index → Index
unfolding remove_as cut_entry
remove_name name x = remove_as (lookup name x.by_name) x
