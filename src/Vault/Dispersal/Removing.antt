-- ===== src/Vault/Dispersal/Removing.antt =====
-- Remove of an entry of a folder on all three parts, which are connected; not the root.
pub mod Gone
use shfm.Common.{ℕ, zero, suc, Option, none, some, List, [], Bytes}
use shfm.Backend.{Disk, Reply, ok, failed, not_supported}
use shfm.Vault.Store.{remove_if_exists}
use shfm.Vault.Dispersal.Generation.{Three, three, at, Generation}
use shfm.Vault.Dispersal.Open.{Parts}
use shfm.Vault.Dispersal.Listing.{
  Listing, Listed, listed, not_listed, list_parts, Found, dir, generation, nothing, lookup_entry,
}
use shfm.Vault.Dispersal.Writing.{remove_shards, connected, first_error}

-- The first error of the backends, or an error before anything is removed.
pub data Removed : Type 0 where
  reply : Reply → Removed
  not_exist not_listable : Removed

remove_dir_on : Bytes → Reply → Option Disk → Reply × Option Disk
remove_dir_on name first none = (first, none)
remove_dir_on name first (some d) =
    let (r, d') = remove_if_exists name d in (first_error first r, some d')

remove_dir : Bytes → Parts → Reply × Parts
unfolding remove_dir_on
remove_dir name p =
    let (r0, d0) = remove_dir_on name ok p.p0 in
    let (r1, d1) = remove_dir_on name r0 p.p1 in
    let (r2, d2) = remove_dir_on name r1 p.p2 in (r2, three d0 d1 d2)

remove_found : Found → Listing → Bytes → Parts → Removed × Parts
unfolding remove_dir
remove_found dir l name p = let (r, p') = remove_dir name p in (reply r, p')
remove_found (generation g) l name p = let (r, p') = remove_shards l name [] p in (reply r, p')
remove_found nothing l name p = (not_exist, p)

remove_listed : Listed → Bytes → Parts → Removed × Parts
unfolding remove_found
remove_listed (not_listed e) name p = (not_listable, p)
remove_listed (listed l) name p = remove_found (lookup_entry l name) l name p

unfoldable pub remove_entry : Bytes → Three Disk → Removed × Parts
unfolding remove_listed
remove_entry name ds = let (l, p) = list_parts (connected ds) in remove_listed l name p
