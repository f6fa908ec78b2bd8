-- ===== src/Mirror/Tree.antt =====
-- tree, walk and unknown of internal/mirror/generic.go: a recursive listing, with the folders that
-- could not be listed.
pub mod Walked
use shfm.Common.{
  ℕ, zero, suc, Bool, true, false, ◌&&◌, ◌||◌, not, Option, none, some, List, [], ◌∷◌, ◌++◌, Bytes,
  codes, bytes_eq, has_prefix, if◌then◌else◌,
}
use shfm.Common.Dict.{lookup, insert}

-- What a listing says of an entry (vfs.Entry); times as numbers.
pub record Entry : Type 0 where
  pub is_dir : Bool
  pub is_symlink : Bool
  pub size : ℕ
  pub size_unknown : Bool
  pub mod_time : ℕ

mutual
  -- What is in a folder, and whether the file system lists it or fails to.
  pub data Folder : Type 0 where
    folder : Bool → Children → Folder

  pub data Children : Type 0 where
    no_more : Children
    child : Bytes → Entry → Folder → Children → Children

pub record Tree : Type 0 where
  pub entries : List (Bytes × Entry)
  pub bad : List Bytes

abbrev pub slash : Bytes
slash = codes "/"

unfoldable pub join_as : Bytes → Bytes → Bytes
join_as [] name = name
join_as (c ∷ rel) name = (c ∷ rel) ++ (slash ++ name)

abbrev pub is_real_dir : Entry → Bool
is_real_dir c = c.is_dir && not c.is_symlink

mutual
  pub walk_rec : Bytes → Folder → Tree → Tree
  walk_rec rel (folder false cs) t = record t { bad = t.bad ++ rel ∷ [] }
  walk_rec rel (folder true cs) t = walk_children rel cs t

  pub walk_children : Bytes → Children → Tree → Tree
  walk_children rel no_more t = t
  walk_children rel (child name c f cs) t =
      let r = join_as rel name in
      let t1 = record t { entries = insert r c t.entries } in
      let below = walk_rec r f t1 in walk_children rel cs (if is_real_dir c then below else t1)

unfoldable pub walk : Folder → Tree
unfolding walk_rec
walk f = walk_rec [] f (record { entries = []; bad = [] })

unfoldable pub is_at_or_below : Bytes → Bytes → Bool
is_at_or_below rel [] = true
is_at_or_below rel (c ∷ b) = bytes_eq rel (c ∷ b) || has_prefix rel ((c ∷ b) ++ slash)

pub unknown_in : List Bytes → Bytes → Bool
unfolding is_at_or_below
unknown_in [] rel = false
unknown_in (b ∷ bad) rel = is_at_or_below rel b || unknown_in bad rel

-- `rel` is below a folder that could not be listed.
unfoldable pub unknown : Tree → Bytes → Bool
unfolding unknown_in
unknown t rel = unknown_in t.bad rel
