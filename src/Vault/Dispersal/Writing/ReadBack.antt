-- ===== src/Vault/Dispersal/Writing/ReadBack.antt =====
-- Open after store (internal/vault/dispersal.go).
use shfm.Common.{
  ℕ, ◌<◌, ◌≡◌, ap, ◌∙◌, Bool, true, false, Option, none, some, [], Bytes, length, arith,
  if◌then◌else◌,
}
use shfm.Backend.{Disk, ok, read, list}
use shfm.Backend.Nodes.{find, file}
use shfm.Vault.Dispersal.Names.{shard_name}
use shfm.Vault.Dispersal.Names.RoundTrip.{IsGen}
use shfm.Vault.Dispersal.Generation.{Three, three, Generation}
use shfm.Vault.Dispersal.Generation.Laws.{IsWrite}
use shfm.Vault.Dispersal.Xor.{shards}
use shfm.Vault.Dispersal.Open.{Parts, open_on, open_shard}
use shfm.Vault.Dispersal.Open.AnyTwo.{HoldsShards}
use shfm.Vault.Dispersal.Listing.{Listing, listed, list_parts, ask_part, generation, lookup_entry}
use shfm.Vault.Dispersal.Opening.{listing_for, open_file, copy_opened}
use shfm.Vault.Dispersal.Opening.Whole.{copy-open_file}
use shfm.Vault.Dispersal.Writing.{store, final_name}
use shfm.Vault.Dispersal.Writing.Success.{HoldsOn, HoldsAll, store-HoldsAll}

-- A part that is connected answers every call.
abbrev pub reached : Bool → Option Disk → Option Disk
reached b none = none
reached b (some d) = if b then some (record d { script = [] }) else none

-- The parts while those of `there` are connected.
abbrev pub reached_parts : Three Bool → Parts → Parts
reached_parts there p =
    three (reached there.p0 p.p0) (reached there.p1 p.p1) (reached there.p2 p.p2)

-- A part as it is after the listing, which may be cached, and opened there.
open_on-reached :
    (b : Bool) (n c : Bytes) (o : Option Disk)
    → HoldsOn n c o
    → b ≡ true
    → open_on (reached b o) n ≡ some c
unfolding open_on read
open_on-reached b n c none (t, h) e = cc
open_on-reached false n c (some d) (t, h) e = cc
open_on-reached true n c (some d) (t, h) e =
    let h' : find n d.nodes ≡ some (file c t) = h in ground (arith, h')

open_on-asked :
    (b : Bool) (n c : Bytes) (o : Option Disk)
    → HoldsOn n c o
    → b ≡ true
    → open_on (ask_part (reached b o)).1 n ≡ some c
unfolding open_on read ask_part list
open_on-asked b n c none (t, h) e = cc
open_on-asked false n c (some d) (t, h) e = cc
open_on-asked true n c (some d) (t, h) e =
    let h' : find n d.nodes ≡ some (file c t) = h in ground (arith, h')

module _ (name gen c : Bytes) (p : Parts) (all : HoldsAll name gen c p) (there : Three Bool)
    (g : Generation) (same : g.gen ≡ gen) (w : IsWrite (length c) g)
    (seen : (g.have.p0 ≡ true → there.p0 ≡ true)
      × (g.have.p1 ≡ true → there.p1 ≡ true)
      × (g.have.p2 ≡ true → there.p2 ≡ true)) where
  shard_a_name : shard_name name g.gen 0 g.pad ≡ final_name name gen c 0
  unfolding shard_name
  shard_a_name = ap (λ x. shard_name name x 0 0) same

  shard_b_name : shard_name name g.gen 1 g.pad ≡ final_name name gen c 1
  unfolding shard_name
  shard_b_name = ap (λ x. shard_name name x 1 0) same

  shard_c_name : g.have.p2 ≡ true → shard_name name g.gen 2 g.pad ≡ final_name name gen c 2
  shard_c_name e =
      ap (λ x. shard_name name x 2 g.pad) same ∙ ap (shard_name name gen 2) (w.padding e)

  opened-HoldsShards :
      (cached : Option Listing)
      → HoldsShards (listing_for cached (reached_parts there p)).1 name c g
  unfolding listing_for list_parts open_shard
  opened-HoldsShards none = record {
    shard_a = λ e.
        ap (open_on (ask_part (reached there.p0 p.p0)).1) shard_a_name
        ∙ open_on-asked there.p0 (final_name name gen c 0) (shards c).p0 p.p0 all.0 (seen.0 e);
    shard_b = λ e.
        ap (open_on (ask_part (reached there.p1 p.p1)).1) shard_b_name
        ∙ open_on-asked there.p1 (final_name name gen c 1) (shards c).p1 p.p1 all.1 (seen.1 e);
    shard_c = λ e.
        ap (open_on (ask_part (reached there.p2 p.p2)).1) (shard_c_name e)
        ∙ open_on-asked there.p2 (final_name name gen c 2) (shards c).p2 p.p2 all.2 (seen.2 e);
  }
  opened-HoldsShards (some l) = record {
    shard_a = λ e.
        ap (open_on (reached there.p0 p.p0)) shard_a_name
        ∙ open_on-reached there.p0 (final_name name gen c 0) (shards c).p0 p.p0 all.0 (seen.0 e);
    shard_b = λ e.
        ap (open_on (reached there.p1 p.p1)) shard_b_name
        ∙ open_on-reached there.p1 (final_name name gen c 1) (shards c).p1 p.p1 all.1 (seen.1 e);
    shard_c = λ e.
        ap (open_on (reached there.p2 p.p2)) (shard_c_name e)
        ∙ open_on-reached there.p2 (final_name name gen c 2) (shards c).p2 p.p2 all.2 (seen.2 e);
  }

-- Suppose that the write of a file succeeds, whatever the backends answered on the way. Afterwards
-- some of the parts are connected and answer, and lookup finds, in a listing that is cached or
-- fresh, the generation of that write, with the sizes of its shards, on connected parts. Then Open
-- opens the file, and copying it with a buffer of any size ends and gives what was written.
pub open_file-store :
    (name gen c : Bytes) (ds : Three Disk) (there : Three Bool) (cached : Option Listing)
    (l : Listing) (g : Generation) (fuel k : ℕ)
    → IsGen gen
    → (store name gen c ds).0 ≡ ok
    → (listing_for cached (reached_parts there (store name gen c ds).1)).0 ≡ listed l
    → lookup_entry l name ≡ generation g
    → g.gen ≡ gen
    → IsWrite (length c) g
    → (g.have.p0 ≡ true → there.p0 ≡ true)
      × (g.have.p1 ≡ true → there.p1 ≡ true)
      × (g.have.p2 ≡ true → there.p2 ≡ true)
    → 0 < k
    → length c < fuel
    → copy_opened fuel k (open_file cached name (reached_parts there (store name gen c ds).1))
      ≡ some c
open_file-store name gen c ds there cached l g fuel k hex done listing found same w seen room
      enough =
    let p = (store name gen c ds).1 in
    copy-open_file cached name c (reached_parts there p) l g fuel k listing found w
      (opened-HoldsShards name gen c p (store-HoldsAll name gen c hex ds done) there g same w seen
        cached)
      room enough
