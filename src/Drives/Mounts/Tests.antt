-- ===== src/Drives/Mounts/Tests.antt =====
-- A home folder on a disk of its own, mounted twice.
use shfm.Common.{
  ◌≡◌, refl, ◌⊎◌, false, none, some, [], ◌∷◌, Bytes, codes, All, List, bytes_eq, has_prefix,
}
use shfm.Drives.Mounts.{Mount, is_under, mount_of}
use shfm.Drives.Mounts.Longest.{IsLastDeepest, mount_of-IsLastDeepest}

abbrev mount_at : Bytes → Bytes → Mount
mount_at point device = record {
  mount_point = point;
  device = device;
  fs_type = codes "ext4";
  uuid = [];
}

abbrev mounts : List Mount
mounts =
    mount_at (codes "/home") (codes "sdb1")
    ∷ mount_at (codes "/") (codes "sda1")
    ∷ mount_at (codes "/home") (codes "sdc1")
    ∷ []

abbrev uuid_of : Bytes → Bytes
uuid_of device = device

mount_of-IsLastDeepest_example :
    ((mount_of mounts uuid_of (codes "/home/x") ≡ none)
      × All (λ mt. is_under (codes "/home/x") mt.mount_point ≡ false) mounts)
    ⊎ ((b : Mount) × (mount_of mounts uuid_of (codes "/home/x")
          ≡ some (record b { uuid = uuid_of b.device }))
        × IsLastDeepest (codes "/home/x") mounts b)
mount_of-IsLastDeepest_example = mount_of-IsLastDeepest mounts uuid_of (codes "/home/x")

-- the later mount is the one
shadowed :
    mount_of mounts uuid_of (codes "/home/x")
    ≡ some (record (mount_at (codes "/home") (codes "sdc1")) { uuid = codes "sdc1" })
unfolding mount_of is_under bytes_eq has_prefix
shadowed = refl
