-- ===== src/Mirror/Run.antt =====
-- runGeneric for a folder, up to the changes that it carries out: both sides are walked, the source's
-- symbolic links are left out, and the changes are planned.
pub mod Safety
use shfm.Common.{Bool, true, false, Option, none, some, List, [], ◌∷◌, Bytes, if◌then◌else◌}
use shfm.Mirror.Tree.{Entry, Folder, Tree, walk, unknown}
use shfm.Mirror.Plan.{Manifest, Op, plan}

pub keep_unless : Bool → Bytes × Entry → List (Bytes × Entry) → List (Bytes × Entry)
keep_unless true e m = m
keep_unless false e m = e ∷ m

-- Symbolic links of the source are left out.
unfoldable pub drop_symlinks : List (Bytes × Entry) → List (Bytes × Entry)
unfolding keep_unless
drop_symlinks [] = []
drop_symlinks ((k, e) ∷ m) = keep_unless e.is_symlink (k, e) (drop_symlinks m)

abbrev pub without_links : Tree → Tree
without_links t = record t { entries = drop_symlinks t.entries }

-- None is the error that the source can't be listed.
plan_for : Bool → Tree → Tree → Manifest → Option (List Op × Manifest)
plan_for true st dt old = none
plan_for false st dt old = some (plan (without_links st) dt old)

unfoldable pub mirror_plan : Folder → Folder → Manifest → Option (List Op × Manifest)
unfolding plan_for
mirror_plan src dst old = plan_for (unknown (walk src) []) (walk src) (walk dst) old
