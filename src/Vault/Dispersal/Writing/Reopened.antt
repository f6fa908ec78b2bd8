-- ===== src/Vault/Dispersal/Writing/Reopened.antt =====
-- Open by its name of a file that was stored (internal/vault/dispersal.go), if the parts have no other
-- shards of it.
use mathlib.Core.Path.{subst}
use shfm.Common.{
  ℕ, ◌+◌, ◌<◌, ◌≤◌, ◌≡◌, refl, ap, ◌∙◌, Bool, true, false, Option, none, some, List, [], ◌∷◌, Bytes,
  All, length, arith, if◌then◌else◌, inl,
}
use shfm.Common.Dict.{lookup}
use shfm.Backend.{Disk, ok, list}
use shfm.Backend.Nodes.{Node, file, folder}
use shfm.Vault.Dispersal.Names.{parse_shard, is_name}
use shfm.Vault.Dispersal.Names.RoundTrip.{IsGen, kind_of, parse-shard_name}
use shfm.Vault.Dispersal.Generation.{Three, three, at, set_at, count, one_if}
use shfm.Vault.Dispersal.Generation.Laws.{pad_for}
use shfm.Vault.Dispersal.Xor.{shards}
use shfm.Vault.Dispersal.Open.{Parts}
use shfm.Vault.Dispersal.Listing.{
  Listing, ListError, listed, list_parts, merge, enough, ask_part, add_answer, add_entry,
  add_entries, empty_listing,
}
use shfm.Vault.Dispersal.Listing.Ours.{NodeIsOurs, gen_with}
use shfm.Vault.Dispersal.Listing.Stored.{Shows, gen_with-IsWrite, part-Shows, lookup_entry-gen_with}
use shfm.Vault.Dispersal.Opening.{listing_for, open_file, copy_opened}
use shfm.Vault.Dispersal.Writing.{store, final_name}
use shfm.Vault.Dispersal.Writing.Success.{HoldsOn, HoldsAll, store-HoldsAll}
use shfm.Vault.Dispersal.Writing.ReadBack.{reached, reached_parts, open_file-store}

entry-listed : (i : ℕ) (e : Bytes × Node) (l : Listing) → (add_entry i e l).listed ≡ l.listed
unfolding add_entry
entry-listed i (n, folder t) l = refl
entry-listed i (n, file d t) l = refl

entries-listed :
    (i : ℕ) (m : List (Bytes × Node)) (l : Listing) → (add_entries i m l).listed ≡ l.listed
unfolding add_entries
entries-listed i [] l = refl
entries-listed i (e ∷ m) l = entries-listed i m (add_entry i e l) ∙ entry-listed i e l

abbrev nodes_of : Option Disk → List (Bytes × Node)
nodes_of none = []
nodes_of (some d) = d.nodes

abbrev seen_if : Bool → ℕ → Three Bool → Three Bool
seen_if x i b = if x then set_at i true b else b

abbrev seen_of : Three Bool → Three Bool
seen_of x = seen_if x.p2 2 (seen_if x.p1 1 (seen_if x.p0 0 (three false false false)))

seen_all : (x y z : Bool) → seen_of (three x y z) ≡ three x y z
seen_all false false false = refl
seen_all false false true = refl
seen_all false true false = refl
seen_all false true true = refl
seen_all true false false = refl
seen_all true false true = refl
seen_all true true false = refl
seen_all true true true = refl

enough_two : (acc : Listing × Option ListError) → 2 ≤ acc.0.listed → enough acc ≡ listed acc.0
unfolding enough
enough_two (l, first) h = ground arith

-- On part `i`, no folder has the file's name, and a file whose name is that of a shard of the file is
-- the part's shard of the write.
abbrev pub HasOnly : Bytes → Bytes → Bytes → ℕ → Option Disk → Type 0
HasOnly name gen c i o = All (NodeIsOurs name gen c i) (nodes_of o)

module _ (name gen c : Bytes) (hex : IsGen gen) (named : is_name name ≡ true) where
  final-parsed :
      (i : ℕ)
      → parse_shard (final_name name gen c i) ≡ some (name, gen, kind_of i (pad_for (length c)))
  final-parsed i =
      parse-shard_name name gen i (pad_for (length c)) hex (omega arith)
      ∙ ap (λ x. if x then some (name, gen, kind_of i (pad_for (length c))) else none) named

  answer-Shows :
      (i : ℕ) (x : Bool) (b : Three Bool) (o : Option Disk) (acc : Listing × Option ListError)
      → i < 3
      → HoldsOn (final_name name gen c i) (at i (shards c)) o
      → HasOnly name gen c i o
      → Shows name gen c b acc.0
      → let l = (add_answer i (ask_part (reached x o)).0 acc).0 in
        Shows name gen c (seen_if x i b) l × (l.listed ≡ acc.0.listed + one_if x)
  unfolding add_answer ask_part list
  answer-Shows i x b none acc h (t, e) o s = cc
  answer-Shows i false b (some d) acc h (t, e) o s = (s, omega arith)
  answer-Shows i true b (some d) (l, first) h (t, e) o s =
      let l' = record l { listed = l.listed + 1 } in
      (
        part-Shows name gen c i t b (final_name name gen c i) (at i (shards c)) d.nodes l' h
            (final-parsed i) e o s,
        entries-listed i d.nodes l',
      )

  -- The listing of the parts of `there`.
  parts-Shows :
      (there : Three Bool) (p : Parts)
      → HoldsAll name gen c p
      → HasOnly name gen c 0 p.p0
      → HasOnly name gen c 1 p.p1
      → HasOnly name gen c 2 p.p2
      → 2 ≤ one_if there.p0 + one_if there.p1 + one_if there.p2
      → (l : Listing) × ((list_parts (reached_parts there p)).0 ≡ listed l)
        × Shows name gen c there l
  unfolding list_parts merge lookup
  parts-Shows there p all o0 o1 o2 two =
      let a0 = (ask_part (reached there.p0 p.p0)).0 in
      let a1 = (ask_part (reached there.p1 p.p1)).0 in
      let a2 = (ask_part (reached there.p2 p.p2)).0 in
      let m0 = add_answer 0 a0 (empty_listing, none) in
      let m1 = add_answer 1 a1 m0 in
      let b0 = seen_if there.p0 0 (three false false false) in
      let b1 = seen_if there.p1 1 b0 in
      let (s0, n0) =
        answer-Shows 0 there.p0 (three false false false) p.p0 (empty_listing, none) (omega arith)
          all.0 o0 (inl (refl, refl), refl) in
      let (s1, n1) = answer-Shows 1 there.p1 b0 p.p1 m0 (omega arith) all.1 o1 s0 in
      let (s2, n2) = answer-Shows 2 there.p2 b1 p.p2 m1 (omega arith) all.2 o2 s1 in
      (
        (add_answer 2 a2 m1).0,
        enough_two (add_answer 2 a2 m1) (omega (arith, n0, n1, n2, two)),
        subst (λ b. Shows name gen c b (add_answer 2 a2 m1).0) (seen_all there.p0 there.p1 there.p2)
            s2,
      )

-- Suppose that the write of a file succeeds, whatever the backends answered on the way, for a file
-- name that is not empty and has no line break. Afterwards two or three of the parts are connected and
-- answer, and the parts have no folder of the file's name, and no shard of the file but their one
-- of this write. Then Open, with a fresh listing, finds the file by its name, and copying it with a
-- buffer of any size ends and gives what was written.
pub open_file-stored :
    (name gen c : Bytes) (ds : Three Disk) (there : Three Bool) (fuel k : ℕ)
    → IsGen gen
    → is_name name ≡ true
    → (store name gen c ds).0 ≡ ok
    → HasOnly name gen c 0 (store name gen c ds).1.p0
    → HasOnly name gen c 1 (store name gen c ds).1.p1
    → HasOnly name gen c 2 (store name gen c ds).1.p2
    → 2 ≤ one_if there.p0 + one_if there.p1 + one_if there.p2
    → 0 < k
    → length c < fuel
    → copy_opened fuel k (open_file none name (reached_parts there (store name gen c ds).1))
      ≡ some c
unfolding count listing_for
open_file-stored name gen c ds there fuel k hex named done o0 o1 o2 two room enough_fuel =
    let p = (store name gen c ds).1 in
    let (l, listing, shows) =
      parts-Shows name gen c hex named there p (store-HoldsAll name gen c hex ds done) o0 o1 o2
        two in
    let (t, found) = lookup_entry-gen_with name gen c there l shows (λ t. two) in
    open_file-store name gen c ds there none l (gen_with name gen c there t) fuel k hex done listing
      found refl (gen_with-IsWrite name gen c there t) (λ e. e, λ e. e, λ e. e) room enough_fuel
