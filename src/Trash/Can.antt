-- ===== src/Trash/Can.antt =====
-- The can of internal/trash/trash.go: MoveToTrash, Restore and Purge, with copyAny of
-- internal/trash/copy.go. The calls to the os package may fail, in the ways that `Faults` names.
pub mod FreeName
pub mod Moving
pub mod Ending
pub mod Restoring
use shfm.Common.{
  ℕ, zero, suc, ◌+◌, Bool, true, false, ◌&&◌, ◌||◌, not, Option, none, some, List, [], ◌∷◌, ◌++◌,
  Bytes, length, take, drop, is_some, if◌then◌else◌, bytes_eq,
}
use shfm.Common.Dict.{lookup, insert, erase}
use shfm.Common.Split.{split_on, last_of}
use shfm.Common.Decimal.{decimal}
use shfm.Trash.Record.{info_text, read_info}

-- A file or a folder, with all its files by relative path (a file's own is empty).
pub record Content : Type 0 where
  pub is_dir : Bool
  pub parts : List (Bytes × Bytes)

-- What stands outside the can by absolute path, files/ and info/ of the can by ID, and the paths
-- whose folders were made.
pub record World : Type 0 where
  pub outside : List (Bytes × Content)
  pub files : List (Bytes × Content)
  pub infos : List (Bytes × Bytes)
  pub folders : List Bytes

-- `ready`: the can is there. `opens`: the record can be made. `renames`: os.Rename is on one
-- device. `tidies`: the clean-up after an error succeeds. `makes`, `unlinks` and `flushes`: the
-- same for MkdirAll, Remove and FlushRemovable. A write, a copy or a removal that fails, `some k`,
-- has done its first `k` bytes or parts.
pub record Faults : Type 0 where
  pub ready : Bool
  pub opens : Bool
  pub written : Option ℕ
  pub renames : Bool
  pub copied : Option ℕ
  pub removed : Option ℕ
  pub tidies : Bool
  pub makes : Bool
  pub unlinks : Bool
  pub flushes : Bool

-- Whether there was no error, and the world after.
abbrev pub Result : Type 0
Result = Bool × World

-- filepath.Base and filepath.Dir of a clean absolute path
abbrev pub slash : ℕ
slash = b'/'

unfoldable pub base_name : Bytes → Bytes
base_name p = last_of (split_on slash p)

-- "%s.%d"
unfoldable pub numbered_id : Bytes → ℕ → Bytes
numbered_id base suffix = base ++ b'.' ∷ decimal suffix

-- The loop that looks for a name that files/ does not have, from the ID it stands at.
unfoldable pub id_loop : ℕ → List (Bytes × Content) → Bytes → Bytes → ℕ → Bytes
unfolding lookup numbered_id
id_loop zero files base id suffix = id
id_loop (suc fuel) files base id suffix =
    let rest = id_loop fuel files base (numbered_id base suffix) (suffix + 1) in
    if is_some (lookup id files) then rest else id

-- One try for each name that is taken, and one more.
unfoldable pub free_id : List (Bytes × Content) → Bytes → Bytes
unfolding id_loop
free_id files base = id_loop (suc (length files)) files base base 1

abbrev pub with_outside : List (Bytes × Content) → World → World
with_outside o w = record w { outside = o }

abbrev pub with_files : List (Bytes × Content) → World → World
with_files f w = record w { files = f }

abbrev pub with_infos : List (Bytes × Bytes) → World → World
with_infos i w = record w { infos = i }

abbrev pub some_parts : List (Bytes × Bytes) → Content → Content
some_parts parts v = record v { parts = parts }

-- os.Remove of the record and os.RemoveAll of the copy, whose errors are not looked at.
drop_info : Faults → Bytes → World → World
unfolding erase
drop_info f id w = if f.tidies then with_infos (erase id w.infos) w else w

drop_file : Faults → Bytes → World → World
unfolding erase
drop_file f id w = if f.tidies then with_files (erase id w.files) w else w

-- os.RemoveAll(absPath) after the copy
remove_original : Option ℕ → Faults → Bytes → Content → Bytes → World → Result
unfolding insert erase drop_info drop_file
remove_original none f p v id w = (true, with_outside (erase p w.outside) w)
remove_original (some k) f p v id w = (
  false,
  drop_info f id
      (drop_file f id (with_outside (insert p (some_parts (drop k v.parts) v) w.outside) w)),
)

-- copyAny(absPath, filesDest)
copy_in : Option ℕ → Faults → Bytes → Content → Bytes → World → Result
unfolding insert remove_original drop_info
copy_in none f p v id w = remove_original f.removed f p v id (with_files (insert id v w.files) w)
copy_in (some k) f p v id w =
    (false, drop_info f id (with_files (insert id (some_parts (take k v.parts) v) w.files) w))

-- os.Rename(absPath, filesDest), or else a copy
put_away : Faults → Bytes → Content → Bytes → World → Result
unfolding copy_in insert erase
put_away f p v id w =
    if f.renames
    then (true, record w { outside = erase p w.outside; files = insert id v w.files })
    else copy_in f.copied f p v id w

-- writeTrashInfo: O_EXCL, and no clean-up of a record that was not written whole
write_info_as : Option ℕ → Faults → Bytes → Content → Bytes → Bytes → World → Result
unfolding put_away insert
write_info_as none f p v id content w = put_away f p v id (with_infos (insert id content w.infos) w)
write_info_as (some k) f p v id content w =
    (false, with_infos (insert id (take k content) w.infos) w)

write_info : Faults → Bytes → Content → Bytes → Bytes → World → Result
unfolding write_info_as lookup
write_info f p v id content w =
    if f.opens && not (is_some (lookup id w.infos))
    then write_info_as f.written f p v id content w
    else (false, w)

module _ (stamp : ℕ → Bytes) where
  move_there : Faults → ℕ → Bytes → Option Content → World → Result
  unfolding free_id base_name write_info info_text
  move_there f now p none w = (false, w)
  move_there f now p (some v) w =
      if f.ready
      then (let id = free_id w.files (base_name p) in write_info f p v id (info_text stamp p now) w)
      else (false, w)

  unfoldable pub move_to_trash : Faults → ℕ → Bytes → World → Result
  unfolding move_there lookup
  move_to_trash f now p w = move_there f now p (lookup p w.outside) w

-- An item of a listing.
pub record Item : Type 0 where
  pub id : Bytes
  pub original_path : Bytes
  pub deletion_date : ℕ
  pub is_dir : Bool

dir_of : Option Content → Bool
dir_of none = false
dir_of (some v) = v.is_dir

module _ (time_of : Bytes → ℕ) where
  unfoldable pub item_of : Bytes → Bytes → List (Bytes × Content) → Item
  unfolding read_info lookup dir_of
  item_of id content files = record {
    id = id;
    original_path = (read_info time_of content).original_path;
    deletion_date = (read_info time_of content).deletion_date;
    is_dir = dir_of (lookup id files);
  }

  unfoldable pub items_of : List (Bytes × Bytes) → List (Bytes × Content) → List Item
  unfolding item_of
  items_of [] files = []
  items_of ((id, content) ∷ infos) files = item_of id content files ∷ items_of infos files

  -- ListRoot
  unfoldable pub list_root : World → List Item
  unfolding items_of
  list_root w = items_of w.infos w.files

abbrev pub is_empty : Bytes → Bool
is_empty [] = true
is_empty (c ∷ s) = false

-- The record goes, and the drive is flushed.
finish_restore : Faults → Item → World → Result
unfolding lookup erase
finish_restore f it w =
    if f.unlinks && is_some (lookup it.id w.infos)
    then (f.flushes, with_infos (erase it.id w.infos) w)
    else (false, w)

-- os.RemoveAll of the trashed file after the copy
remove_trashed : Option ℕ → Faults → Item → Content → World → Result
unfolding finish_restore erase insert
remove_trashed none f it v w = finish_restore f it (with_files (erase it.id w.files) w)
remove_trashed (some k) f it v w =
    (false, with_files (insert it.id (some_parts (drop k v.parts) v) w.files) w)

copy_out : Option ℕ → Faults → Item → Content → World → Result
unfolding remove_trashed insert
copy_out none f it v w =
    remove_trashed f.removed f it v (with_outside (insert it.original_path v w.outside) w)
copy_out (some k) f it v w =
    (false, with_outside (insert it.original_path (some_parts (take k v.parts) v) w.outside) w)

-- os.Rename, or else a copy; with no such file both fail.
put_back : Option Content → Faults → Item → World → Result
unfolding copy_out finish_restore insert erase
put_back none f it w = (false, w)
put_back (some v) f it w =
    if f.renames
    then finish_restore f it
        (record w { files = erase it.id w.files; outside = insert it.original_path v w.outside })
    else copy_out f.copied f it v w

unfoldable pub restore : Faults → Item → World → Result
unfolding lookup put_back
restore f it w =
    if is_empty it.original_path || is_some (lookup it.original_path w.outside)
    then (false, w)
    else if f.makes
    then put_back (lookup it.id w.files) f it (record w { folders = it.original_path ∷ w.folders })
    else (false, w)

-- os.RemoveAll of the content, which need not be there, and os.Remove of the record.
purge_removed : Option ℕ → Faults → Item → Option Content → World → Result
unfolding lookup erase insert
purge_removed none f it v w =
    if f.unlinks && is_some (lookup it.id w.infos)
    then (true, record w { files = erase it.id w.files; infos = erase it.id w.infos })
    else (false, with_files (erase it.id w.files) w)
purge_removed (some k) f it none w = (false, w)
purge_removed (some k) f it (some v) w =
    (false, with_files (insert it.id (some_parts (drop k v.parts) v) w.files) w)

unfoldable pub purge : Faults → Item → World → Result
unfolding lookup purge_removed
purge f it w = purge_removed f.removed f it (lookup it.id w.files) w

purge_next : Bool × World → (World → Result) → Result
purge_next (true, w) k = k w
purge_next (false, w) k = (false, w)

-- The loop of Empty, over the items of the listing, with the faults of each step.
unfoldable pub empty_items : (ℕ → Faults) → ℕ → List Item → World → Result
unfolding purge purge_next
empty_items faults n [] w = (true, w)
empty_items faults n (it ∷ items) w =
    purge_next (purge (faults n) it w) (λ w'. empty_items faults (suc n) items w')
