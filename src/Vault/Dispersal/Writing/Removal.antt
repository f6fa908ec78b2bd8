-- ===== src/Vault/Dispersal/Writing/Removal.antt =====
-- The parts after removeShards of internal/vault/dispersal.go.
use shfm.Common.{
  ℕ, zero, suc, Among, ◌≡◌, refl, sym, ap, ◌∙◌, inl, inr, Bool, true, false, Option, none, some,
  List, [], ◌∷◌, Bytes, arith, Bool-cases, bytes_eq, bytes_eq_iff,
}
use shfm.Backend.{Disk, Reply, ok, failed, not_supported, remove}
use shfm.Backend.Nodes.{Node, find}
use shfm.Backend.Frame.{nodes-list, find-remove_ne, find-remove, find-remove_ok}
use shfm.Vault.Dispersal.Generation.{Three, at}
use shfm.Vault.Dispersal.Listing.{Listing, ask_part, list_parts}
use shfm.Vault.Dispersal.Open.{Parts}
use shfm.Vault.Dispersal.Writing.{
  connected, is_stale, remove_if, first_error, remove_names, remove_on, remove_shards,
}

module _ (name keep : Bytes) where
  module _ (k : Bytes) (kept : is_stale name keep k ≡ false) where
    find-remove_if :
        (b : Bool) (raw : Bytes) (d : Disk)
        → is_stale name keep raw ≡ b
        → find k (remove_if b raw d).1.nodes ≡ find k d.nodes
    unfolding remove_if
    find-remove_if true raw d e =
        find-remove_ne raw d k
          (λ q. let f : true ≡ false = sym e ∙ ap (is_stale name keep) q ∙ kept in cc f)
    find-remove_if false raw d e = refl

    pub find-remove_names :
        (rs : List Bytes) (r : Reply) (d : Disk)
        → find k (remove_names name keep rs r d).1.nodes ≡ find k d.nodes
    unfolding remove_names
    find-remove_names [] r d = refl
    find-remove_names (raw ∷ rs) r d =
        let s = remove_if (is_stale name keep raw) raw d in
        find-remove_names rs (first_error r s.0) s.1
        ∙ find-remove_if (is_stale name keep raw) raw d refl

  -- What is gone stays gone.
  gone_if :
      (b : Bool) (k raw : Bytes) (d : Disk)
      → find k d.nodes ≡ none
      → find k (remove_if b raw d).1.nodes ≡ none
  unfolding remove_if
  gone_if false k raw d h = h
  gone_if true k raw d h = elim (Bool-cases (bytes_eq raw k)) [
    | inl e ↦
        let q = (bytes_eq_iff raw k).0 e in
        elim (find-remove raw d) [
          | inl u ↦
              ap (λ t. find t (remove raw d).1.nodes) (sym q) ∙ u ∙ ap (λ t. find t d.nodes) q ∙ h
          | inr u ↦ ap (λ t. find t (remove raw d).1.nodes) (sym q) ∙ u
        ]
    | inr e ↦ find-remove_ne raw d k (λ q. ground (arith, bytes_eq_iff raw k)) ∙ h
  ]

  pub gone_names :
      (k : Bytes) (rs : List Bytes) (r : Reply) (d : Disk)
      → find k d.nodes ≡ none
      → find k (remove_names name keep rs r d).1.nodes ≡ none
  unfolding remove_names
  gone_names k [] r d h = h
  gone_names k (raw ∷ rs) r d h =
      let b = is_stale name keep raw in
      let s = remove_if b raw d in gone_names k rs (first_error r s.0) s.1 (gone_if b k raw d h)

  first_error-ok : (r s : Reply) → first_error r s ≡ ok → (r ≡ ok) × (s ≡ ok)
  first_error-ok ok s e = (refl, e)
  first_error-ok failed s e = cc
  first_error-ok not_supported s e = cc

  pub remove_names-first :
      (rs : List Bytes) (r : Reply) (d : Disk) → (remove_names name keep rs r d).0 ≡ ok → r ≡ ok
  unfolding remove_names
  remove_names-first [] r d e = e
  remove_names-first (raw ∷ rs) r d e =
      let s = remove_if (is_stale name keep raw) raw d in
      (first_error-ok r s.0 (remove_names-first rs (first_error r s.0) s.1 e)).0

  removed_if :
      (b : Bool) (raw : Bytes) (d : Disk)
      → b ≡ true
      → (remove_if b raw d).0 ≡ ok
      → find raw (remove_if b raw d).1.nodes ≡ none
  unfolding remove_if
  removed_if true raw d h e = find-remove_ok raw d e
  removed_if false raw d h e = cc

  pub remove_names-gone :
      (k : Bytes) (rs : List Bytes) (r : Reply) (d : Disk)
      → Among k rs
      → is_stale name keep k ≡ true
      → (remove_names name keep rs r d).0 ≡ ok
      → find k (remove_names name keep rs r d).1.nodes ≡ none
  unfolding remove_names
  remove_names-gone k [] r d i h e = absurd i
  remove_names-gone k (raw ∷ rs) r d (inr i) h e =
      let s = remove_if (is_stale name keep raw) raw d in
      remove_names-gone k rs (first_error r s.0) s.1 i h e
  remove_names-gone k (raw ∷ rs) r d (inl q) h e =
      let b = is_stale name keep raw in
      let s = remove_if b raw d in
      let good = (first_error-ok r s.0 (remove_names-first rs (first_error r s.0) s.1 e)).1 in
      gone_names k rs (first_error r s.0) s.1 (
        ap (λ t. find t s.1.nodes) (sym q)
        ∙ removed_if b raw d (ap (is_stale name keep) q ∙ h) good)

-- What a part has under a name; nothing if it is not connected.
abbrev pub find_on : Bytes → Option Disk → Option Node
find_on k none = none
find_on k (some d) = find k d.nodes

-- Listing changes nothing on a part.
find_on-ask_part : (k : Bytes) (o : Option Disk) → find_on k (ask_part o).1 ≡ find_on k o
unfolding ask_part
find_on-ask_part k none = refl
find_on-ask_part k (some d) = ap (find k) (nodes-list d)

pub find_on-list_parts :
    (ds : Three Disk) (i : ℕ) (k : Bytes)
    → find_on k (at i (list_parts (connected ds)).1) ≡ find_on k (at i (connected ds))
unfolding list_parts
find_on-list_parts ds zero k = find_on-ask_part k (some ds.p0)
find_on-list_parts ds (suc zero) k = find_on-ask_part k (some ds.p1)
find_on-list_parts ds (suc (suc i)) k = find_on-ask_part k (some ds.p2)

module _ (name keep : Bytes) where
  find-remove_on :
      (k : Bytes) (rs : List Bytes) (r : Reply) (o : Option Disk)
      → is_stale name keep k ≡ false
      → find_on k (remove_on name keep rs r o).1 ≡ find_on k o
  unfolding remove_on
  find-remove_on k rs r none h = refl
  find-remove_on k rs r (some d) h = find-remove_names name keep k h rs r d

  remove_on-first :
      (rs : List Bytes) (r : Reply) (o : Option Disk) → (remove_on name keep rs r o).0 ≡ ok → r ≡ ok
  unfolding remove_on
  remove_on-first rs r none e = e
  remove_on-first rs r (some d) e = remove_names-first name keep rs r d e

  remove_on-gone :
      (k : Bytes) (rs : List Bytes) (r : Reply) (o : Option Disk)
      → Among k rs
      → is_stale name keep k ≡ true
      → (remove_on name keep rs r o).0 ≡ ok
      → find_on k (remove_on name keep rs r o).1 ≡ none
  unfolding remove_on
  remove_on-gone k rs r none i h e = refl
  remove_on-gone k rs r (some d) i h e = remove_names-gone name keep k rs r d i h e

  -- On every part, whatever the backends do: a name that is no shard of the file, or one of the
  -- kept generation, keeps its node.
  pub find-remove_shards :
      (l : Listing) (p : Parts) (i : ℕ) (k : Bytes)
      → is_stale name keep k ≡ false
      → find_on k (at i (remove_shards l name keep p).1) ≡ find_on k (at i p)
  unfolding remove_shards
  find-remove_shards l p zero k h = find-remove_on k l.raw.p0 ok p.p0 h
  find-remove_shards l p (suc zero) k h =
      find-remove_on k l.raw.p1 (remove_on name keep l.raw.p0 ok p.p0).0 p.p1 h
  find-remove_shards l p (suc (suc i)) k h =
      find-remove_on k l.raw.p2
        (remove_on name keep l.raw.p1 (remove_on name keep l.raw.p0 ok p.p0).0 p.p1).0 p.p2 h

  remove_on-none :
      (k : Bytes) (rs : List Bytes) (r : Reply) (o : Option Disk)
      → find_on k o ≡ none
      → find_on k (remove_on name keep rs r o).1 ≡ none
  unfolding remove_on
  remove_on-none k rs r none h = refl
  remove_on-none k rs r (some d) h = gone_names name keep k rs r d h

  -- What is not there stays away.
  pub remove_shards-none :
      (l : Listing) (p : Parts) (i : ℕ) (k : Bytes)
      → find_on k (at i p) ≡ none
      → find_on k (at i (remove_shards l name keep p).1) ≡ none
  unfolding remove_shards
  remove_shards-none l p zero k h = remove_on-none k l.raw.p0 ok p.p0 h
  remove_shards-none l p (suc zero) k h =
      remove_on-none k l.raw.p1 (remove_on name keep l.raw.p0 ok p.p0).0 p.p1 h
  remove_shards-none l p (suc (suc i)) k h =
      remove_on-none k l.raw.p2
        (remove_on name keep l.raw.p1 (remove_on name keep l.raw.p0 ok p.p0).0 p.p1).0 p.p2 h

  at_part :
      (l : Listing) (p : Parts) (i : ℕ) (k : Bytes)
      → Among k (at i l.raw)
      → is_stale name keep k ≡ true
      → (remove_on name keep l.raw.p0 ok p.p0).0 ≡ ok
      → (remove_on name keep l.raw.p1 (remove_on name keep l.raw.p0 ok p.p0).0 p.p1).0 ≡ ok
      → (remove_shards l name keep p).0 ≡ ok
      → find_on k (at i (remove_shards l name keep p).1) ≡ none
  unfolding remove_shards
  at_part l p zero k m h e0 e1 e2 = remove_on-gone k l.raw.p0 ok p.p0 m h e0
  at_part l p (suc zero) k m h e0 e1 e2 =
      remove_on-gone k l.raw.p1 (remove_on name keep l.raw.p0 ok p.p0).0 p.p1 m h e1
  at_part l p (suc (suc i)) k m h e0 e1 e2 =
      remove_on-gone k l.raw.p2
        (remove_on name keep l.raw.p1 (remove_on name keep l.raw.p0 ok p.p0).0 p.p1).0 p.p2 m h e2

  -- If no error is returned, no shard of the file that was listed is left on its part, but those of
  -- the kept generation.
  pub remove_shards-gone :
      (l : Listing) (p : Parts) (i : ℕ) (k : Bytes)
      → Among k (at i l.raw)
      → is_stale name keep k ≡ true
      → (remove_shards l name keep p).0 ≡ ok
      → find_on k (at i (remove_shards l name keep p).1) ≡ none
  unfolding remove_shards
  remove_shards-gone l p i k m h e =
      let r0 = (remove_on name keep l.raw.p0 ok p.p0).0 in
      let r1 = (remove_on name keep l.raw.p1 r0 p.p1).0 in
      let e1 : r1 ≡ ok = remove_on-first l.raw.p2 r1 p.p2 e in
      let e0 : r0 ≡ ok = remove_on-first l.raw.p1 r0 p.p1 e1 in at_part l p i k m h e0 e1 e
