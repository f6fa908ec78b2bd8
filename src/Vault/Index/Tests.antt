-- ===== src/Vault/Index/Tests.antt =====
-- The index of a folder with a file and a folder.
use shfm.Common.{◌≡◌, refl, false, true, none, some, [], ◌∷◌, Bytes, codes, bytes_eq, if◌then◌else◌}
use shfm.Vault.Index.{IndexEntry, Index, reindex, get, put_entry, remove_name}
use shfm.Vault.Index.View.{
  IsIndex, position, reindex-IsIndex, put_entry-IsIndex, remove_name-IsIndex,
}

abbrev notes : IndexEntry
notes = record { id = codes "q7"; name = codes "notes"; is_dir = false; size = 3; mtime = 1 }

abbrev photos : IndexEntry
photos = record { id = codes "x2"; name = codes "photos"; is_dir = true; size = 0; mtime = 2 }

abbrev longer : IndexEntry
longer = record { id = codes "k5"; name = codes "notes"; is_dir = false; size = 9; mtime = 4 }

abbrev index : Index
index = reindex (record { version = 1; entries = notes ∷ photos ∷ []; by_name = [] })

index-IsIndex : IsIndex index
unfolding position bytes_eq
index-IsIndex =
    reindex-IsIndex (record { version = 1; entries = notes ∷ photos ∷ []; by_name = [] })
      (refl, (refl, tt))

put_entry-IsIndex_example :
    IsIndex (put_entry longer index)
    × ((m : Bytes)
        → get (put_entry longer index) m
          ≡ (if bytes_eq longer.name m then some longer else get index m))
put_entry-IsIndex_example = put_entry-IsIndex longer index index-IsIndex

remove_name-IsIndex_example :
    IsIndex (remove_name (codes "notes") index)
    × ((m : Bytes)
        → get (remove_name (codes "notes") index) m
          ≡ (if bytes_eq (codes "notes") m then none else get index m))
remove_name-IsIndex_example = remove_name-IsIndex (codes "notes") index index-IsIndex
