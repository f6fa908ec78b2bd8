-- ===== src/Mirror/Plan.antt =====
-- runGeneric's plan: what to delete, make and copy, from the two listings and the manifest of the
-- last run. Maps are read in the order of their sorted keys.
pub mod Order
pub mod Deletes
pub mod Copies
use shfm.Common.{
  ℕ, zero, suc, Bool, true, false, ◌&&◌, ◌||◌, not, Option, none, some, List, [], ◌∷◌, ◌++◌, Bytes,
  bytes_eq, has_prefix, map, ltb, ◌==◌, if◌then◌else◌,
}
use shfm.Common.Dict.{lookup, insert}
use shfm.Mirror.Tree.{Entry, Tree, unknown, slash}

-- fileState, and the manifest.
pub record FileState : Type 0 where
  pub src_size : ℕ
  pub src_mod : ℕ
  pub dst_size : ℕ
  pub dst_mod : ℕ

abbrev pub Manifest : Type 0
Manifest = List (Bytes × FileState)

pub data OpKind : Type 0 where
  delete mkdir copy : OpKind

pub record Op : Type 0 where
  pub kind : OpKind
  pub rel : Bytes

-- `x < y` as strings
unfoldable pub str_ltb : Bytes → Bytes → Bool
str_ltb s [] = false
str_ltb [] (y ∷ ys) = true
str_ltb (x ∷ xs) (y ∷ ys) = ltb x y || x == y && str_ltb xs ys

pub insert_key : Bytes → List Bytes → List Bytes
insert_key k [] = k ∷ []
insert_key k (j ∷ js) = let rest = insert_key k js in if str_ltb j k then j ∷ rest else k ∷ j ∷ js

unfoldable pub sorted_keys : List (Bytes × Entry) → List Bytes
unfolding insert_key
sorted_keys [] = []
sorted_keys ((k, v) ∷ m) = insert_key k (sorted_keys m)

unfoldable pub under : Bytes → List Bytes → Bool
under rel [] = false
under rel (d ∷ ds) = has_prefix rel (d ++ slash) || under rel ds

-- sort.SearchStrings: the first position whose string is not below `rel`.
pub search_strings : List Bytes → Bytes → ℕ
search_strings [] rel = zero
search_strings (d ∷ ds) rel = let i = search_strings ds rel in if str_ltb d rel then suc i else zero

pub is_at : List Bytes → ℕ → Bytes → Bool
is_at [] i rel = false
is_at (d ∷ ds) zero rel = bytes_eq d rel
is_at (d ∷ ds) (suc i) rel = is_at ds i rel

unfoldable pub is_deleted : Bytes → List Bytes → Bool
unfolding search_strings is_at
is_deleted rel deleted = is_at deleted (search_strings deleted rel) rel

same_bool : Bool → Bool → Bool
same_bool true b = b
same_bool false b = not b

-- The source has no such entry, or one of another kind.
pub differs : Option Entry → Entry → Bool
unfolding same_bool
differs none d = true
differs (some s) d = not (same_bool s.is_dir (d.is_dir && not d.is_symlink))

unfoldable pub must_delete : Option Entry → Option Entry → Bool
unfolding differs
must_delete s none = false
must_delete s (some d) = differs s d

-- The deletions, in order; `deleted` are those so far.
unfoldable pub delete_loop : Tree → Tree → List Bytes → List Bytes → List Bytes
unfolding must_delete
delete_loop st dt [] deleted = deleted
delete_loop st dt (rel ∷ rs) deleted = delete_loop st dt rs (
    if under rel deleted || unknown st rel
    then deleted
    else if must_delete (lookup rel st.entries) (lookup rel dt.entries)
    then deleted ++ rel ∷ []
    else deleted)

is_recorded : Option FileState → Entry → Entry → Bool
is_recorded none s d = false
is_recorded (some f) s d =
    f.src_size == s.size
    && (f.src_mod == s.mod_time && (f.dst_size == d.size && f.dst_mod == d.mod_time))

-- The destination file is stale.
unfoldable pub needs_copy : Entry → Entry → Manifest → Bytes → Bool
unfolding is_recorded
needs_copy s d old rel =
    if d.is_dir || not (s.size == d.size) && not s.size_unknown
    then true
    else not (is_recorded (lookup rel old) s d)

-- The destination's entry that is still there after the deletions.
pub remaining : Option Entry → Bool → Option Entry
remaining none gone = none
remaining (some d) gone = if gone then none else some d

pub is_stale_copy : Entry → Option Entry → Manifest → Bytes → Bool
is_stale_copy s none old rel = true
is_stale_copy s (some d) old rel = needs_copy s d old rel

keep_state : Option FileState → Bytes → Manifest → Manifest
keep_state none rel next = next
keep_state (some f) rel next = insert rel f next

-- By the cases of the switch: `s.IsDir`, and whether the copy is stale.
pub copy_as :
    Bool → Bool → Option Entry → Option FileState → Bytes → List Op × Manifest → List Op × Manifest
unfolding keep_state
copy_as true stale none f rel (ops, next) = (ops ++ record { kind = mkdir; rel = rel } ∷ [], next)
copy_as true stale (some d) f rel (ops, next) = (ops, next)
copy_as false true d f rel (ops, next) = (ops ++ record { kind = copy; rel = rel } ∷ [], next)
copy_as false false d f rel (ops, next) = (ops, keep_state f rel next)

-- One source entry: the operation that it needs, or its recorded state is kept.
pub copy_entry : Entry → Option Entry → Manifest → Bytes → List Op × Manifest → List Op × Manifest
unfolding is_stale_copy copy_as
copy_entry s d old rel acc = copy_as s.is_dir (is_stale_copy s d old rel) d (lookup rel old) rel acc

copy_known :
    Option Entry → Option Entry → Manifest → Bytes → List Op × Manifest → List Op × Manifest
unfolding copy_entry
copy_known none d old rel acc = acc
copy_known (some s) d old rel acc = copy_entry s d old rel acc

unfoldable pub copy_loop :
    Tree → Tree → Manifest → List Bytes → List Bytes → List Op × Manifest → List Op × Manifest
unfolding copy_known remaining
copy_loop st dt old deleted [] acc = acc
copy_loop st dt old deleted (rel ∷ rs) acc = copy_loop st dt old deleted rs (
    copy_known (lookup rel st.entries)
      (remaining (lookup rel dt.entries) (under rel deleted || is_deleted rel deleted)) old rel acc)

delete_ops : List Bytes → List Op
delete_ops deleted = map (λ rel. record { kind = delete; rel = rel }) deleted

-- The operations, and what of the manifest is kept.
unfoldable pub plan : Tree → Tree → Manifest → List Op × Manifest
unfolding delete_loop copy_loop delete_ops
plan st dt old =
    let deleted = delete_loop st dt (sorted_keys dt.entries) [] in
    copy_loop st dt old deleted (sorted_keys st.entries) (delete_ops deleted, [])
