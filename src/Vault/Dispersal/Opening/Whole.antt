-- ===== src/Vault/Dispersal/Opening/Whole.antt =====
-- What Open of internal/vault/dispersal.go gives, by the generation that its lookup finds.
use shfm.Common.{
  ℕ, ◌<◌, ◌≤◌, ◌≡◌, ap, ◌∙◌, Bool, true, false, Option, none, some, Bytes, length, arith,
  if◌then◌else◌,
}
use shfm.Common.Dict.{lookup}
use shfm.Vault.Dispersal.Generation.{Generation, count}
use shfm.Vault.Dispersal.Generation.Laws.{IsWrite}
use shfm.Vault.Dispersal.Open.{Parts}
use shfm.Vault.Dispersal.Open.AnyTwo.{HoldsShards, copy-open_any_two}
use shfm.Vault.Dispersal.Listing.{
  Listing, listed, Gens, dir, generation, best_found, lookup_entry, found_file, found_dir,
  is_readable, best,
}
use shfm.Vault.Dispersal.Listing.Best.{best-readable}
use shfm.Vault.Dispersal.Opening.{listing_for, open_found, open_listed, open_file, copy_opened}

readable-count : (g : Generation) → is_readable g ≡ true → 2 ≤ count g
unfolding is_readable
readable-count g h = ground arith

best_found-some :
    (o : Option Generation) (g : Generation) → best_found o ≡ generation g → o ≡ some g
unfolding best_found
best_found-some none g h = cc
best_found-some (some b) g h = cc

found_file-count : (m : Option Gens) (g : Generation) → found_file m ≡ generation g → 2 ≤ count g
unfolding found_file
found_file-count none g h = cc
found_file-count (some m) g h = readable-count g (best-readable m g (best_found-some (best m) g h))

-- A generation that lookup finds has two shards or three.
pub lookup_entry-count :
    (l : Listing) (name : Bytes) (g : Generation) → lookup_entry l name ≡ generation g → 2 ≤ count g
unfolding lookup_entry
lookup_entry-count l name g h = not_dir (found_dir (lookup name l.dirs)) h
  where
    not_dir :
        (b : Bool)
        → (if b then dir else found_file (lookup name l.files)) ≡ generation g
        → 2 ≤ count g
    not_dir true e = cc
    not_dir false e = found_file-count (lookup name l.files) g e

-- If lookup finds a generation that is a write of content `c`, whose shards can be opened, then
-- the copy of what Open opens ends and gives `c`.
pub copy-open_file :
    (cached : Option Listing) (name c : Bytes) (p : Parts) (l : Listing) (g : Generation)
    (fuel k : ℕ)
    → (listing_for cached p).0 ≡ listed l
    → lookup_entry l name ≡ generation g
    → IsWrite (length c) g
    → HoldsShards (listing_for cached p).1 name c g
    → 0 < k
    → length c < fuel
    → copy_opened fuel k (open_file cached name p) ≡ some c
unfolding open_file copy_opened open_listed open_found
copy-open_file cached name c p l g fuel k listing found w h room enough =
    let q = (listing_for cached p).1 in
    ap (λ x. copy_opened fuel k (open_listed x name q)) listing
    ∙ (ap (λ f. copy_opened fuel k (open_found f name q)) found
        ∙ copy-open_any_two q name c g w (lookup_entry-count l name g found) h fuel k room enough)
