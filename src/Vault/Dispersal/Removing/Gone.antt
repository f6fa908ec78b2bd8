-- ===== src/Vault/Dispersal/Removing/Gone.antt =====
-- The parts after Remove of internal/vault/dispersal.go.
use mathlib.Core.Path.{subst}
use shfm.Common.{
  ℕ, zero, suc, ◌≡◌, refl, sym, ap, ◌∙◌, ◌⊎◌, inl, inr, true, none, some, [], Bytes, Among,
  Option-cases, arith,
}
use shfm.Backend.{Disk, ok, list, success, outcome}
use shfm.Backend.Nodes.{find}
use shfm.Vault.Dispersal.Generation.{Three, three, at, Generation}
use shfm.Vault.Dispersal.Open.{Parts}
use shfm.Vault.Dispersal.Listing.{
  Listing, listed, list_parts, ask_part, merge, enough, entries, add_answer, empty_listing, Found,
  dir, generation, nothing, lookup_entry,
}
use shfm.Vault.Dispersal.Listing.Raw.{find-IsNamed, answer-kept, answer-added, IsNamed}
use shfm.Vault.Dispersal.Writing.{is_stale, connected}
use shfm.Vault.Dispersal.Writing.Removal.{
  find_on, find_on-list_parts, remove_shards-gone, remove_shards-none,
}
use shfm.Vault.Dispersal.Removing.{reply, remove_found, remove_listed, remove_entry}

listed_nodes : (d : Disk) → outcome d ≡ success → (ask_part (some d)).0 ≡ entries d.nodes
unfolding ask_part list
listed_nodes d h = ground arith

-- the listing of the three parts
abbrev merged : Three Disk → Listing
merged ds =
    (merge (three (ask_part (some ds.p0)).0 (ask_part (some ds.p1)).0 (ask_part (some ds.p2)).0)).0

-- A node of a part that was listed is among the names of the part.
merged-Among :
    (ds : Three Disk) (i : ℕ) (k : Bytes)
    → outcome (at i ds) ≡ success
    → IsNamed k (at i ds).nodes
    → Among k (at i (merged ds).raw)
unfolding merge
merged-Among ds zero k s h =
    let a1 = (ask_part (some ds.p1)).0 in
    let a2 = (ask_part (some ds.p2)).0 in
    let m0 = add_answer 0 (ask_part (some ds.p0)).0 (empty_listing, none) in
    answer-kept k 0 2 a2 (add_answer 1 a1 m0) (
      answer-kept k 0 1 a1 m0 (
        answer-added k 0 (ask_part (some ds.p0)).0 ds.p0.nodes (empty_listing, none)
          (listed_nodes ds.p0 s) h))
merged-Among ds (suc zero) k s h =
    let a1 = (ask_part (some ds.p1)).0 in
    let a2 = (ask_part (some ds.p2)).0 in
    let m0 = add_answer 0 (ask_part (some ds.p0)).0 (empty_listing, none) in
    answer-kept k 1 2 a2 (add_answer 1 a1 m0)
      (answer-added k 1 a1 ds.p1.nodes m0 (listed_nodes ds.p1 s) h)
merged-Among ds (suc (suc i)) k s h =
    let a1 = (ask_part (some ds.p1)).0 in
    let a2 = (ask_part (some ds.p2)).0 in
    let m0 = add_answer 0 (ask_part (some ds.p0)).0 (empty_listing, none) in
    answer-added k 2 a2 ds.p2.nodes (add_answer 1 a1 m0) (listed_nodes ds.p2 s) h

enough-merged :
    (ds : Three Disk) (l : Listing) → (list_parts (connected ds)).0 ≡ listed l → merged ds ≡ l
unfolding list_parts enough
enough-merged ds l h = ground arith

on_part :
    (k : Bytes) (ds : Three Disk) (i : ℕ) → find_on k (at i (connected ds)) ≡ find k (at i ds).nodes
on_part k ds zero = refl
on_part k ds (suc zero) = refl
on_part k ds (suc (suc i)) = refl

node_or_none :
    (ds : Three Disk) (i : ℕ) (k : Bytes) (l : Listing)
    → (list_parts (connected ds)).0 ≡ listed l
    → outcome (at i ds) ≡ success
    → (find_on k (at i (connected ds)) ≡ none) ⊎ Among k (at i l.raw)
node_or_none ds i k l h s = elim (Option-cases (find k (at i ds).nodes)) [
  | inl e ↦ inl (on_part k ds i ∙ e)
  | inr (v, e) ↦ inr (
      subst (λ (t : Listing). Among k (at i t.raw)) (enough-merged ds l h)
        (merged-Among ds i k s (find-IsNamed k (at i ds).nodes v e)))
]

removed-gone :
    (f : Found) (l : Listing) (name k : Bytes) (p : Parts) (i : ℕ) (g : Generation)
    → f ≡ generation g
    → (find_on k (at i p) ≡ none) ⊎ Among k (at i l.raw)
    → is_stale name [] k ≡ true
    → (remove_found f l name p).0 ≡ reply ok
    → find_on k (at i (remove_found f l name p).1) ≡ none
unfolding remove_found
removed-gone dir l name k p i g e h s done = cc
removed-gone nothing l name k p i g e h s done = cc
removed-gone (generation g') l name k p i g e (inl h) s done = remove_shards-none name [] l p i k h
removed-gone (generation g') l name k p i g e (inr h) s done =
    remove_shards-gone name [] l p i k h s (cc)

-- Suppose that a name is a file's, by a listing in which part `i` was listed. If removing it
-- succeeds, then no shard of the file, of whatever generation, is left on part `i`.
pub remove_entry-gone :
    (name : Bytes) (ds : Three Disk) (l : Listing) (g : Generation) (i : ℕ) (k : Bytes)
    → (list_parts (connected ds)).0 ≡ listed l
    → lookup_entry l name ≡ generation g
    → outcome (at i ds) ≡ success
    → is_stale name [] k ≡ true
    → (remove_entry name ds).0 ≡ reply ok
    → find_on k (at i (remove_entry name ds).1) ≡ none
unfolding remove_entry
remove_entry-gone name ds l g i k h f s stale done =
    let p = (list_parts (connected ds)).1 in
    let q : remove_listed (list_parts (connected ds)).0 name p
        ≡ remove_found (lookup_entry l name) l name p =
      ap (λ x. remove_listed x name p) h in
    let there : (find_on k (at i p) ≡ none) ⊎ Among k (at i l.raw) =
      elim (node_or_none ds i k l h s) [
        | inl e ↦ inl (find_on-list_parts ds i k ∙ e)
        | inr a ↦ inr a
      ] in
    ap (λ x. find_on k (at i x.1)) q
    ∙ removed-gone (lookup_entry l name) l name k p i g f there stale (sym (ap (λ x. x.0) q) ∙ done)
