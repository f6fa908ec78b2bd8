-- ===== src/Archive/Symlink/Tests.antt =====
-- A link out of a folder, and back into another one.
use shfm.Common.{◌≡◌, ◌↔◌, refl, true, false, codes, bytes_eq}
use shfm.Archive.Symlink.{is_refused, safe_symlink, split_slash, component_of, count_slash}
use shfm.Archive.Symlink.Inside.{Place, IsInside, LeadsTo, safe_symlink-IsInside}

allowed : is_refused (codes "../lib/x") ≡ false
unfolding is_refused
allowed = refl

safe_symlink-IsInside_example :
    (safe_symlink (codes "bin/x") (codes "../lib/x") ≡ true)
    ↔ ((p : Place) → LeadsTo (codes "bin/x") (codes "../lib/x") p → IsInside p)
safe_symlink-IsInside_example = safe_symlink-IsInside (codes "bin/x") (codes "../lib/x") allowed

-- a link that climbs behind a name
climbs_behind : safe_symlink (codes "bin/x") (codes "lib/../y") ≡ false
unfolding safe_symlink bytes_eq split_slash component_of count_slash
climbs_behind = refl
