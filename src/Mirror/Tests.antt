-- ===== src/Mirror/Tests.antt =====
-- A mirror of two folders, one of which cannot be listed on the source's side.
use shfm.Common.{
  ℕ, ◌≡◌, refl, ◌⊎◌, inl, inr, true, false, some, List, [], ◌∷◌, ◌++◌, Bytes, codes, bytes_eq,
  has_prefix,
}
use shfm.Common.Dict.{lookup, insert, alter}
use shfm.Mirror.Tree.{
  Entry, Folder, folder, no_more, child, walk, unknown, slash, join_as, is_at_or_below,
}
use shfm.Mirror.Tree.Walked.{IsIn, IsCovered, walk-IsCovered}
use shfm.Mirror.Plan.{
  delete, mkdir, copy, Op, plan, must_delete, under, str_ltb, sorted_keys, delete_loop, copy_loop,
  is_deleted,
}
use shfm.Mirror.Run.{mirror_plan, drop_symlinks}
use shfm.Mirror.Run.Safety.{IsReplaced, mirror_plan-IsReplaced}
use shfm.Mirror.Plan.Deletes.{HasOp, IsStray, plan-IsStray, plan-deletes_stray}
use shfm.Mirror.Plan.Copies.{IsUpToDate, plan-copies}

abbrev file_of : ℕ → ℕ → Entry
file_of n t = record {
  is_dir = false;
  is_symlink = false;
  size = n;
  size_unknown = false;
  mod_time = t;
}

abbrev dir_entry : Entry
dir_entry = record {
  is_dir = true;
  is_symlink = false;
  size = 0;
  size_unknown = false;
  mod_time = 0;
}

-- a file, a folder that is listed, and one that is not
abbrev source : Folder
source = folder true (
    child (codes "a") (file_of 3 1) (folder true no_more) (
      child (codes "d") dir_entry
        (folder false (child (codes "x") (file_of 1 1) (folder true no_more) no_more)) no_more))

abbrev copied : Folder
copied = folder true (
    child (codes "b") (file_of 2 7) (folder true no_more) (
      child (codes "d") dir_entry
        (folder true (child (codes "x") (file_of 1 5) (folder true no_more) no_more)) no_more))

dx-IsIn : IsIn source [] (codes "d/x")
unfolding join_as
dx-IsIn = inr (inr (inr (inl (refl, inl refl))))

walk-IsCovered_example : IsCovered (codes "d/x") (walk source)
walk-IsCovered_example = walk-IsCovered (codes "d/x") source dx-IsIn

a_listed : lookup (codes "a") (walk source).entries ≡ some (file_of 3 1)
unfolding walk lookup insert alter join_as bytes_eq
a_listed = refl

plan-copies_example :
    HasOp copy (codes "a") (plan (walk source) (walk copied) []).0
    ⊎ IsUpToDate (walk source) (walk copied) [] (codes "a") (file_of 3 1)
plan-copies_example =
    plan-copies (walk source) (walk copied) [] (codes "a") (file_of 3 1) a_listed refl

b-IsStray : IsStray (walk source) (walk copied) (codes "b")
unfolding walk lookup insert alter join_as bytes_eq unknown has_prefix must_delete is_at_or_below
b-IsStray = (refl, refl)

plan-deletes_stray_example :
    HasOp delete (codes "b") (plan (walk source) (walk copied) []).0
    ⊎ ((d : Bytes) × HasOp delete d (plan (walk source) (walk copied) []).0
        × (has_prefix (codes "b") (d ++ slash) ≡ true))
plan-deletes_stray_example = plan-deletes_stray (walk source) (walk copied) [] (codes "b") b-IsStray

b_deleted : HasOp delete (codes "b") (plan (walk source) (walk copied) []).0
unfolding plan walk lookup insert alter join_as is_at_or_below bytes_eq unknown must_delete str_ltb
    sorted_keys delete_loop copy_loop under has_prefix is_deleted
b_deleted = inl (refl, refl)

plan-IsStray_example : IsStray (walk source) (walk copied) (codes "b")
plan-IsStray_example = plan-IsStray (walk source) (walk copied) [] (codes "b") b_deleted

-- the destination has a folder where the source has a file
abbrev other_kind : Folder
other_kind = folder true (child (codes "a") dir_entry (folder true no_more) no_more)

abbrev replacing : List Op
replacing =
    record { kind = delete; rel = codes "a" }
    ∷ record { kind = copy; rel = codes "a" }
    ∷ record { kind = mkdir; rel = codes "d" }
    ∷ []

a_planned : mirror_plan source other_kind [] ≡ some (replacing, [])
unfolding mirror_plan drop_symlinks plan walk lookup insert alter join_as is_at_or_below bytes_eq
    unknown must_delete str_ltb sorted_keys delete_loop copy_loop under has_prefix is_deleted
a_planned = refl

a-IsIn : IsIn source [] (codes "a")
unfolding join_as
a-IsIn = inl refl

mirror_plan-IsReplaced_example : IsReplaced source other_kind [] replacing [] (codes "a")
mirror_plan-IsReplaced_example =
    mirror_plan-IsReplaced source other_kind [] replacing [] (codes "a") a_planned
      (inl (refl, refl)) a-IsIn
