-- ===== src/Mirror/Tree/Walked.antt =====
-- What walk of internal/mirror/generic.go sees of a folder.
use mathlib.Core.Path.{subst}
use shfm.Common.{
  ℕ, ◌≡◌, refl, sym, ◌∙◌, ◌⊎◌, inl, inr, Bool, true, false, ◌||◌, List, [], ◌∷◌, ◌++◌, append_assoc,
  Bytes, bytes_eq_iff, has_prefix, is_some, arith, if◌then◌else◌,
}
use shfm.Common.Dict.{lookup, insert, lookup-alter}
use shfm.Mirror.Tree.{
  Entry, Folder, folder, Children, no_more, child, Tree, slash, join_as, is_real_dir, walk_rec,
  walk_children, walk, is_at_or_below, unknown_in, unknown,
}

abbrev mutual
  -- `p` is the relative path of something in the folder, at any depth; the folder's own is `rel`.
  pub IsIn : Folder → Bytes → Bytes → Type 0
  IsIn (folder b cs) rel p = IsAmong cs rel p

  IsAmong : Children → Bytes → Bytes → Type 0
  IsAmong no_more rel p = ⊥
  IsAmong (child name c f cs) rel p =
      (join_as rel name ≡ p)
      ⊎ ((is_real_dir c ≡ true) × IsIn f (join_as rel name) p)
      ⊎ IsAmong cs rel p

has_prefix-append : (s t : Bytes) → has_prefix (s ++ t) s ≡ true
unfolding has_prefix
has_prefix-append [] [] = refl
has_prefix-append [] (x ∷ t) = refl
has_prefix-append (c ∷ s) t = ground (arith, has_prefix-append s t)

has_prefix-front : (s p q : Bytes) → has_prefix s (p ++ q) ≡ true → has_prefix s p ≡ true
unfolding has_prefix
has_prefix-front [] [] q h = refl
has_prefix-front (x ∷ s) [] q h = refl
has_prefix-front [] (c ∷ p) q h = cc
has_prefix-front (x ∷ s) (c ∷ p) q h = ground (arith, has_prefix-front s p q)

-- strictly below a folder that is not the root
below_join :
    (c : ℕ) (rel name p : Bytes)
    → has_prefix p (join_as (c ∷ rel) name ++ slash) ≡ true
    → has_prefix p ((c ∷ rel) ++ slash) ≡ true
unfolding join_as
below_join c rel name p h = has_prefix-front p ((c ∷ rel) ++ slash) (name ++ slash) (
    subst (λ t. has_prefix p t ≡ true)
      (append_assoc (c ∷ rel) (slash ++ name) slash
        ∙ sym (append_assoc (c ∷ rel) slash (name ++ slash)))
      h)

join-below :
    (c : ℕ) (rel name : Bytes) → has_prefix (join_as (c ∷ rel) name) ((c ∷ rel) ++ slash) ≡ true
unfolding join_as
join-below c rel name =
    subst (λ t. has_prefix t ((c ∷ rel) ++ slash) ≡ true) (append_assoc (c ∷ rel) slash name)
      (has_prefix-append ((c ∷ rel) ++ slash) name)

mutual
  unfolding join_as

  IsIn-below :
      (f : Folder) (c : ℕ) (rel p : Bytes)
      → IsIn f (c ∷ rel) p
      → has_prefix p ((c ∷ rel) ++ slash) ≡ true
  IsIn-below (folder b cs) c rel p h = IsAmong-below cs c rel p h

  IsAmong-below :
      (cs : Children) (c : ℕ) (rel p : Bytes)
      → IsAmong cs (c ∷ rel) p
      → has_prefix p ((c ∷ rel) ++ slash) ≡ true
  IsAmong-below no_more c rel p h = absurd h
  IsAmong-below (child name e f cs) c rel p (inl q) =
      subst (λ t. has_prefix t ((c ∷ rel) ++ slash) ≡ true) q (join-below c rel name)
  IsAmong-below (child name e f cs) c rel p (inr (inl (d, i))) =
      below_join c rel name p (IsIn-below f c (rel ++ (slash ++ name)) p i)
  IsAmong-below (child name e f cs) c rel p (inr (inr i)) = IsAmong-below cs c rel p i

IsIn-at_or_below : (f : Folder) (rel p : Bytes) → IsIn f rel p → is_at_or_below p rel ≡ true
unfolding is_at_or_below
IsIn-at_or_below f [] p h = refl
IsIn-at_or_below f (c ∷ rel) p h = ground (arith, IsIn-below f c rel p h)

-- The walk knows of `p`: it is an entry, or known to be unknown.
abbrev pub IsCovered : Bytes → Tree → Type 0
IsCovered p t = (is_some (lookup p t.entries) ≡ true) ⊎ (unknown t p ≡ true)

unknown_in-append :
    (bad : List Bytes) (b p : Bytes)
    → unknown_in (bad ++ b ∷ []) p ≡ (unknown_in bad p || is_at_or_below p b)
unfolding unknown_in
unknown_in-append [] b p = ground arith
unknown_in-append (x ∷ bad) b p = ground (arith, unknown_in-append bad b p)

lookup-insert_self :
    (p : Bytes) (c : Entry) (m : List (Bytes × Entry)) → is_some (lookup p (insert p c m)) ≡ true
unfolding insert
lookup-insert_self p c m = rw lookup-alter (ground (arith, bytes_eq_iff p p))

lookup-insert_grows :
    (p r : Bytes) (c : Entry) (m : List (Bytes × Entry))
    → is_some (lookup p m) ≡ true
    → is_some (lookup p (insert r c m)) ≡ true
unfolding insert
lookup-insert_grows p r c m h = rw lookup-alter (ground arith)

module _ (p : Bytes) where
  insert-IsCovered :
      (r : Bytes) (c : Entry) (t : Tree)
      → IsCovered p t
      → IsCovered p (record t { entries = insert r c t.entries })
  unfolding unknown
  insert-IsCovered r c t (inl h) = inl (lookup-insert_grows p r c t.entries h)
  insert-IsCovered r c t (inr h) = inr h

  bad-IsCovered :
      (rel : Bytes) (t : Tree) → IsCovered p t → IsCovered p (record t { bad = t.bad ++ rel ∷ [] })
  unfolding unknown
  bad-IsCovered rel t (inl h) = inl h
  bad-IsCovered rel t (inr h) = inr (ground (arith, unknown_in-append t.bad rel p))

  new_bad-IsCovered :
      (rel : Bytes) (t : Tree)
      → is_at_or_below p rel ≡ true
      → IsCovered p (record t { bad = t.bad ++ rel ∷ [] })
  unfolding unknown
  new_bad-IsCovered rel t h = inr (ground (arith, unknown_in-append t.bad rel p))

  pick : (b : Bool) (t u : Tree) → IsCovered p t → IsCovered p u → IsCovered p (if b then t else u)
  pick true t u h k = h
  pick false t u h k = k

  pick_true : (b : Bool) (t u : Tree) → b ≡ true → IsCovered p t → IsCovered p (if b then t else u)
  pick_true true t u e h = h
  pick_true false t u e h = cc

  mutual
    unfolding walk_rec

    walk_rec-keeps :
        (f : Folder) (rel : Bytes) (t : Tree) → IsCovered p t → IsCovered p (walk_rec rel f t)
    walk_rec-keeps (folder false cs) rel t h = bad-IsCovered rel t h
    walk_rec-keeps (folder true cs) rel t h = walk_children-keeps cs rel t h

    walk_children-keeps :
        (cs : Children) (rel : Bytes) (t : Tree)
        → IsCovered p t
        → IsCovered p (walk_children rel cs t)
    walk_children-keeps no_more rel t h = h
    walk_children-keeps (child name c f cs) rel t h =
        let r = join_as rel name in
        let t1 = record t { entries = insert r c t.entries } in
        let h1 : IsCovered p t1 = insert-IsCovered r c t h in
        walk_children-keeps cs rel (if is_real_dir c then walk_rec r f t1 else t1)
          (pick (is_real_dir c) (walk_rec r f t1) t1 (walk_rec-keeps f r t1 h1) h1)

  mutual
    unfolding walk_rec

    walk_rec-IsCovered :
        (f : Folder) (rel : Bytes) (t : Tree) → IsIn f rel p → IsCovered p (walk_rec rel f t)
    walk_rec-IsCovered (folder false cs) rel t i =
        new_bad-IsCovered rel t (IsIn-at_or_below (folder false cs) rel p i)
    walk_rec-IsCovered (folder true cs) rel t i = walk_children-IsCovered cs rel t i

    walk_children-IsCovered :
        (cs : Children) (rel : Bytes) (t : Tree)
        → IsAmong cs rel p
        → IsCovered p (walk_children rel cs t)
    walk_children-IsCovered no_more rel t i = absurd i
    walk_children-IsCovered (child name c f cs) rel t i =
        let r = join_as rel name in
        let t1 = record t { entries = insert r c t.entries } in
        let below = walk_rec r f t1 in
        elim i [
          | inr (inr j) ↦ walk_children-IsCovered cs rel (if is_real_dir c then below else t1) j
          | inr (inl (d, j)) ↦
              walk_children-keeps cs rel (if is_real_dir c then below else t1)
                (pick_true (is_real_dir c) below t1 d (walk_rec-IsCovered f r t1 j))
          | inl q ↦
              let h1 : IsCovered p t1 = inl (
                subst (λ x. is_some (lookup x t1.entries) ≡ true) q
                  (lookup-insert_self r c t.entries)) in
              walk_children-keeps cs rel (if is_real_dir c then below else t1)
                (pick (is_real_dir c) below t1 (walk_rec-keeps f r t1 h1) h1)
        ]

  -- Whatever is in the mirrored folder, at any depth and below any folder that cannot be listed,
  -- is an entry of the walk, or the walk says that it is unknown.
  pub walk-IsCovered : (f : Folder) → IsIn f [] p → IsCovered p (walk f)
  unfolding walk
  walk-IsCovered f i = walk_rec-IsCovered f [] (record { entries = []; bad = [] }) i
