-- ===== src/Vault/Dispersal/Opening.antt =====
-- Open of a file by its name: lookup in the folder's listing, cached or fresh, and then the readers.
pub mod Whole
use shfm.Common.{ℕ, Option, none, some, [], Bytes, ◌⊎◌, inl, inr}
use shfm.Vault.Dispersal.Reader.{StepReader, copy_all}
use shfm.Vault.Dispersal.Open.{Parts, open_reader}
use shfm.Vault.Dispersal.Listing.{
  Listing, Listed, listed, not_listed, list_parts, Found, dir, generation, nothing, lookup_entry,
}

pub data OpenError : Type 0 where
  not_listable is_dir not_exist : OpenError

-- `cached`: the folder's listing, if it is in the cache and not older than two seconds.
unfoldable pub listing_for : Option Listing → Parts → Listed × Parts
listing_for none p = list_parts p
listing_for (some l) p = (listed l, p)

unfoldable pub open_found : Found → Bytes → Parts → OpenError ⊎ StepReader
open_found dir name p = inl is_dir
open_found (generation g) name p = inr (open_reader p name g)
open_found nothing name p = inl not_exist

unfoldable pub open_listed : Listed → Bytes → Parts → OpenError ⊎ StepReader
unfolding open_found
open_listed (not_listed e) name p = inl not_listable
open_listed (listed l) name p = open_found (lookup_entry l name) name p

unfoldable pub open_file : Option Listing → Bytes → Parts → OpenError ⊎ StepReader
unfolding listing_for open_listed
open_file cached name p = let (l, q) = listing_for cached p in open_listed l name q

-- The copy of what was opened, with a buffer of `k` bytes, in at most `fuel` reads.
unfoldable pub copy_opened : ℕ → ℕ → OpenError ⊎ StepReader → Option Bytes
copy_opened fuel k (inl e) = none
copy_opened fuel k (inr r) = copy_all fuel k r []
