-- ===== src/Drives/Mounts.antt =====
-- internal/drives/mountid.go: the mount that a path lies on. The mounts are what /proc/mounts
-- lists, in its order, and a device's UUID is what /dev/disk says of it: both are parameters.
pub mod Longest
pub mod Tests
use shfm.Common.{
  ℕ, Bool, true, false, ◌||◌, Option, none, some, List, [], ◌∷◌, ◌++◌, Bytes, codes, bytes_eq,
  has_prefix, length, leb, if◌then◌else◌,
}

pub record Mount : Type 0 where
  pub mount_point : Bytes
  pub device : Bytes
  pub fs_type : Bytes
  pub uuid : Bytes

abbrev pub root : Bytes
root = codes "/"

-- `path` is `dir` itself or inside it.
unfoldable pub is_under : Bytes → Bytes → Bool
is_under path dir =
    if bytes_eq dir root
    then has_prefix path root
    else bytes_eq path dir || has_prefix path (dir ++ root)

-- A round of the loop: `>=`, so that a later mount on the same point shadows an earlier one.
pub pick_mount : Bool → Mount → Option Mount → Option Mount
pick_mount false mt best = best
pick_mount true mt none = some mt
pick_mount true mt (some b) =
    if leb (length b.mount_point) (length mt.mount_point) then some mt else some b

pub mount_loop : Bytes → List Mount → Option Mount → Option Mount
unfolding pick_mount
mount_loop path [] best = best
mount_loop path (mt ∷ ms) best =
    mount_loop path ms (pick_mount (is_under path mt.mount_point) mt best)

module _ (mounts : List Mount) (uuid_of : Bytes → Bytes) where
  with_uuid : Option Mount → Option Mount
  with_uuid none = none
  with_uuid (some b) = some (record b { uuid = uuid_of b.device })

  -- The path is clean.
  unfoldable pub mount_of : Bytes → Option Mount
  unfolding mount_loop with_uuid
  mount_of path = with_uuid (mount_loop path mounts none)
