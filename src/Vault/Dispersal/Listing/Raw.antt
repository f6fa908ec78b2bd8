-- ===== src/Vault/Dispersal/Listing/Raw.antt =====
-- The names that list of internal/vault/dispersal.go keeps of each part.
use mathlib.Core.Path.{subst}
use shfm.Common.{
  ℕ, ◌+◌, sym, Option, zero, suc, ◌≡◌, ◌⊎◌, inl, inr, List, [], ◌∷◌, ◌++◌, Bytes, Among, some,
  bytes_eq, bytes_eq_iff, Bool-cases, arith,
}
use shfm.Backend.Nodes.{Node, file, folder, find}
use shfm.Vault.Dispersal.Generation.{Three, at, set_at}
use shfm.Vault.Dispersal.Listing.{
  Listing, ListError, Answer, entries, no_answer, add_entry, add_entries, add_answer,
}

-- `k` is the name of a node.
abbrev pub IsNamed : Bytes → List (Bytes × Node) → Type 0
IsNamed k [] = ⊥
IsNamed k ((n, v) ∷ m) = (n ≡ k) ⊎ IsNamed k m

pub find-IsNamed :
    (k : Bytes) (m : List (Bytes × Node)) (v : Node) → find k m ≡ some v → IsNamed k m
unfolding find
find-IsNamed k [] v h = cc
find-IsNamed k ((n, w) ∷ m) v h = elim (Bool-cases (bytes_eq n k)) [
  | inl e ↦ inl ((bytes_eq_iff n k).0 e)
  | inr e ↦ inr (find-IsNamed k m v (ground arith))
]

module _ (k : Bytes) where
  Among-first : (xs ys : List Bytes) → Among k xs → Among k (xs ++ ys)
  Among-first [] ys i = absurd i
  Among-first (x ∷ xs) ys (inl q) = inl q
  Among-first (x ∷ xs) ys (inr i) = inr (Among-first xs ys i)

  Among-added : (xs : List Bytes) (n : Bytes) → n ≡ k → Among k (xs ++ n ∷ [])
  Among-added [] n e = inl e
  Among-added (x ∷ xs) n e = inr (Among-added xs n e)

  abbrev with_name : ℕ → Bytes → Three (List Bytes) → Three (List Bytes)
  with_name j n raw = set_at j (at j raw ++ n ∷ []) raw

  kept :
      (i j : ℕ) (n : Bytes) (raw : Three (List Bytes))
      → Among k (at i raw)
      → Among k (at i (with_name j n raw))
  kept zero zero n raw h = Among-first raw.p0 (n ∷ []) h
  kept zero (suc zero) n raw h = h
  kept zero (suc (suc j)) n raw h = h
  kept (suc zero) zero n raw h = h
  kept (suc zero) (suc zero) n raw h = Among-first raw.p1 (n ∷ []) h
  kept (suc zero) (suc (suc j)) n raw h = h
  kept (suc (suc i)) zero n raw h = h
  kept (suc (suc i)) (suc zero) n raw h = h
  kept (suc (suc i)) (suc (suc j)) n raw h = Among-first raw.p2 (n ∷ []) h

  added :
      (i : ℕ) (n : Bytes) (raw : Three (List Bytes)) → n ≡ k → Among k (at i (with_name i n raw))
  added zero n raw e = Among-added raw.p0 n e
  added (suc zero) n raw e = Among-added raw.p1 n e
  added (suc (suc i)) n raw e = Among-added raw.p2 n e

  entry-kept :
      (i j : ℕ) (e : Bytes × Node) (l : Listing)
      → Among k (at i l.raw)
      → Among k (at i (add_entry j e l).raw)
  unfolding add_entry
  entry-kept i j (n, folder t) l h = kept i j n l.raw h
  entry-kept i j (n, file c t) l h = kept i j n l.raw h

  entry-added :
      (i : ℕ) (n : Bytes) (v : Node) (l : Listing)
      → n ≡ k
      → Among k (at i (add_entry i (n, v) l).raw)
  unfolding add_entry
  entry-added i n (folder t) l e = added i n l.raw e
  entry-added i n (file c t) l e = added i n l.raw e

  entries-kept :
      (i j : ℕ) (es : List (Bytes × Node)) (l : Listing)
      → Among k (at i l.raw)
      → Among k (at i (add_entries j es l).raw)
  unfolding add_entries
  entries-kept i j [] l h = h
  entries-kept i j (e ∷ es) l h = entries-kept i j es (add_entry j e l) (entry-kept i j e l h)

  entries-added :
      (i : ℕ) (es : List (Bytes × Node)) (l : Listing)
      → IsNamed k es
      → Among k (at i (add_entries i es l).raw)
  unfolding add_entries
  entries-added i [] l h = absurd h
  entries-added i ((n, v) ∷ es) l (inl e) =
      entries-kept i i es (add_entry i (n, v) l) (entry-added i n v l e)
  entries-added i ((n, v) ∷ es) l (inr h) = entries-added i es (add_entry i (n, v) l) h

  pub answer-kept :
      (i j : ℕ) (a : Answer) (acc : Listing × Option ListError)
      → Among k (at i acc.0.raw)
      → Among k (at i (add_answer j a acc).0.raw)
  unfolding add_answer
  answer-kept i j (no_answer e) (l, first) h = h
  answer-kept i j (entries m) (l, first) h =
      entries-kept i j m (record l { listed = l.listed + 1 }) h

  pub answer-added :
      (i : ℕ) (a : Answer) (m : List (Bytes × Node)) (acc : Listing × Option ListError)
      → a ≡ entries m
      → IsNamed k m
      → Among k (at i (add_answer i a acc).0.raw)
  unfolding add_answer
  answer-added i (no_answer e) m (l, first) q h = cc
  answer-added i (entries n) m (l, first) q h =
      let same : n ≡ m = cc in
      entries-added i n (record l { listed = l.listed + 1 }) (subst (IsNamed k) (sym same) h)
