-- ===== src/Mirror/Plan/Deletes.antt =====
-- The deletions of runGeneric's plan (internal/mirror/generic.go).
use mathlib.Core.Path.{subst}
use shfm.Common.{
  ◌≡◌, ◌≢◌, refl, sym, ap, ◌∙◌, ◌⊎◌, inl, inr, Bool, true, false, ◌||◌, Option, none, some, List,
  [], ◌∷◌, ◌++◌, Bytes, arith, Bool-cases, Among, is_some, has_prefix,
}
use shfm.Common.Dict.{lookup}
use shfm.Mirror.Tree.{Entry, Tree, unknown, slash}
use shfm.Mirror.Plan.{
  Op, FileState, copy_as, OpKind, delete, mkdir, copy, Manifest, delete_loop, must_delete, under,
  delete_ops, copy_loop, copy_known, copy_entry, remaining, plan, sorted_keys, is_stale_copy,
  is_deleted,
}
use shfm.Mirror.Plan.Order.{Among-sorted_keys}

-- The operation is in the plan.
abbrev pub HasOp : OpKind → Bytes → List Op → Type 0
HasOp k r [] = ⊥
HasOp k r (o ∷ os) = (o.kind ≡ k) × (o.rel ≡ r) ⊎ HasOp k r os

pub HasOp-append : (k : OpKind) (r : Bytes) (xs ys : List Op) → HasOp k r xs → HasOp k r (xs ++ ys)
HasOp-append k r [] ys h = absurd h
HasOp-append k r (o ∷ os) ys (inl h) = inl h
HasOp-append k r (o ∷ os) ys (inr h) = inr (HasOp-append k r os ys h)

pub HasOp-append_right :
    (k : OpKind) (r : Bytes) (xs ys : List Op) → HasOp k r ys → HasOp k r (xs ++ ys)
HasOp-append_right k r [] ys h = h
HasOp-append_right k r (o ∷ os) ys h = inr (HasOp-append_right k r os ys h)

HasOp-cases :
    (k : OpKind) (r : Bytes) (xs ys : List Op) → HasOp k r (xs ++ ys) → HasOp k r xs ⊎ HasOp k r ys
HasOp-cases k r [] ys h = inr h
HasOp-cases k r (o ∷ os) ys (inl h) = inl (inl h)
HasOp-cases k r (o ∷ os) ys (inr h) = elim (HasOp-cases k r os ys h) [
  | inl a ↦ inl (inr a)
  | inr b ↦ inr b
]

HasOp-delete_ops : (r : Bytes) (ds : List Bytes) → Among r ds → HasOp delete r (delete_ops ds)
unfolding delete_ops
HasOp-delete_ops r [] i = absurd i
HasOp-delete_ops r (d ∷ ds) (inl q) = inl (refl, q)
HasOp-delete_ops r (d ∷ ds) (inr i) = inr (HasOp-delete_ops r ds i)

Among-delete_ops : (r : Bytes) (ds : List Bytes) → HasOp delete r (delete_ops ds) → Among r ds
unfolding delete_ops
Among-delete_ops r [] h = absurd h
Among-delete_ops r (d ∷ ds) (inl (_, q)) = inl q
Among-delete_ops r (d ∷ ds) (inr h) = inr (Among-delete_ops r ds h)

module _ (st dt : Tree) where
  -- The source is known not to have what the destination has under this name.
  abbrev pub IsStray : Bytes → Type 0
  IsStray r =
      (unknown st r ≡ false) × (must_delete (lookup r st.entries) (lookup r dt.entries) ≡ true)

  Among-append : (r : Bytes) (xs ys : List Bytes) → Among r xs → Among r (xs ++ ys)
  Among-append r [] ys i = absurd i
  Among-append r (x ∷ xs) ys (inl q) = inl q
  Among-append r (x ∷ xs) ys (inr i) = inr (Among-append r xs ys i)

  Among-last : (r : Bytes) (xs : List Bytes) → Among r (xs ++ r ∷ [])
  Among-last r [] = inl refl
  Among-last r (x ∷ xs) = inr (Among-last r xs)

  Among-cases : (r s : Bytes) (xs : List Bytes) → Among r (xs ++ s ∷ []) → Among r xs ⊎ (s ≡ r)
  Among-cases r s [] (inl q) = inr q
  Among-cases r s [] (inr i) = absurd i
  Among-cases r s (x ∷ xs) (inl q) = inl (inl q)
  Among-cases r s (x ∷ xs) (inr i) = elim (Among-cases r s xs i) [
    | inl a ↦ inl (inr a)
    | inr b ↦ inr b
  ]

  pub under-append :
      (r : Bytes) (xs ys : List Bytes) → under r xs ≡ true → under r (xs ++ ys) ≡ true
  unfolding under
  under-append r [] ys h = cc
  under-append r (x ∷ xs) ys h = ground (arith, under-append r xs ys)

  -- What a round does, by its two tests.
  module _ (P : List Bytes → Type 0) (r : Bytes) (rs ds : List Bytes)
      (skip : P (delete_loop st dt rs ds))
      (take_it : under r ds ≡ false → IsStray r → P (delete_loop st dt rs (ds ++ r ∷ []))) where
    round : P (delete_loop st dt (r ∷ rs) ds)
    unfolding delete_loop
    round = elim (Bool-cases (under r ds || unknown st r)) [
      | inl e ↦ rw e skip
      | inr e ↦ elim (Bool-cases (must_delete (lookup r st.entries) (lookup r dt.entries))) [
        | inl f ↦ rw e (rw f (take_it (ground arith) (ground arith, f)))
        | inr f ↦ rw e (rw f skip)
      ]
    ]

  delete_loop-only :
      (rs ds : List Bytes) (q : Bytes) → Among q (delete_loop st dt rs ds) → Among q ds ⊎ IsStray q
  unfolding delete_loop
  delete_loop-only [] ds q = λ i. inl i
  delete_loop-only (r ∷ rs) ds q =
      round (λ l. Among q l → Among q ds ⊎ IsStray q) r rs ds (delete_loop-only rs ds q)
        (λ u s i. elim (delete_loop-only rs (ds ++ r ∷ []) q i) [
          | inr t ↦ inr t
          | inl j ↦ elim (Among-cases q r ds j) [ inl a ↦ inl a | inr e ↦ inr (subst IsStray e s) ]
        ])

  Among-delete_loop :
      (rs ds : List Bytes) (q : Bytes) → Among q ds → Among q (delete_loop st dt rs ds)
  unfolding delete_loop
  Among-delete_loop [] ds q i = i
  Among-delete_loop (r ∷ rs) ds q i =
      round (Among q) r rs ds (Among-delete_loop rs ds q i)
        (λ u s. Among-delete_loop rs (ds ++ r ∷ []) q (Among-append q ds (r ∷ []) i))

  under-delete_loop :
      (rs ds : List Bytes) (q : Bytes)
      → under q ds ≡ true
      → under q (delete_loop st dt rs ds) ≡ true
  unfolding delete_loop
  under-delete_loop [] ds q h = h
  under-delete_loop (r ∷ rs) ds q h =
      round (λ l. under q l ≡ true) r rs ds (under-delete_loop rs ds q h)
        (λ u s. under-delete_loop rs (ds ++ r ∷ []) q (under-append q ds (r ∷ []) h))

  -- a stray entry is deleted, or a folder above it is
  delete_loop-all :
      (rs ds : List Bytes) (q : Bytes)
      → Among q rs
      → IsStray q
      → Among q (delete_loop st dt rs ds) ⊎ (under q (delete_loop st dt rs ds) ≡ true)
  unfolding delete_loop
  delete_loop-all [] ds q i s = absurd i
  delete_loop-all (r ∷ rs) ds q (inr i) s =
      round (λ l. Among q l ⊎ (under q l ≡ true)) r rs ds (delete_loop-all rs ds q i s)
        (λ _ _. delete_loop-all rs (ds ++ r ∷ []) q i s)
  delete_loop-all (r ∷ rs) ds q (inl e) (s, t) = elim (Bool-cases (under q ds)) [
    | inl u ↦ inr (under-delete_loop (r ∷ rs) ds q u)
    | inr u ↦
        let u' : under r ds || unknown st r ≡ false =
          ap (λ x. under x ds || unknown st x) e ∙ ground arith in
        let t' : must_delete (lookup r st.entries) (lookup r dt.entries) ≡ true =
          ap (λ x. must_delete (lookup x st.entries) (lookup x dt.entries)) e ∙ t in
        rw u' (
          rw t' (
            inl (
              Among-delete_loop rs (ds ++ r ∷ []) q
                (subst (λ x. Among x (ds ++ r ∷ [])) e (Among-last r ds)))))
  ]

-- How a round of copying ends: with one more operation that is no deletion, or with none.
copy_as-cases :
    (b c : Bool) (d : Option Entry) (f : Option FileState) (rel : Bytes) (acc : List Op × Manifest)
    → ((copy_as b c d f rel acc).0 ≡ acc.0)
      ⊎ ((o : Op) × ((copy_as b c d f rel acc).0 ≡ acc.0 ++ o ∷ []) × (o.kind ≢ delete))
unfolding copy_as
copy_as-cases true c none f rel (ops, next) =
    inr (record { kind = mkdir; rel = rel }, refl, λ q. cc)
copy_as-cases true c (some d) f rel (ops, next) = inl refl
copy_as-cases false true d f rel (ops, next) =
    inr (record { kind = copy; rel = rel }, refl, λ q. cc)
copy_as-cases false false d f rel (ops, next) = inl refl

copy_entry-cases :
    (s : Entry) (d : Option Entry) (old : Manifest) (rel : Bytes) (acc : List Op × Manifest)
    → ((copy_entry s d old rel acc).0 ≡ acc.0)
      ⊎ ((o : Op) × ((copy_entry s d old rel acc).0 ≡ acc.0 ++ o ∷ []) × (o.kind ≢ delete))
unfolding copy_entry
copy_entry-cases s d old rel acc =
    copy_as-cases s.is_dir (is_stale_copy s d old rel) d (lookup rel old) rel acc

copy_entry-keeps :
    (s : Entry) (d : Option Entry) (old : Manifest) (rel : Bytes) (acc : List Op × Manifest)
    (k : OpKind) (r : Bytes)
    → HasOp k r acc.0
    → HasOp k r (copy_entry s d old rel acc).0
copy_entry-keeps s d old rel acc k r h = elim (copy_entry-cases s d old rel acc) [
  | inl e ↦ subst (HasOp k r) (sym e) h
  | inr (o, e, n) ↦ subst (HasOp k r) (sym e) (HasOp-append k r acc.0 (o ∷ []) h)
]

copy_entry-no_delete :
    (s : Entry) (d : Option Entry) (old : Manifest) (rel : Bytes) (acc : List Op × Manifest)
    (r : Bytes)
    → HasOp delete r (copy_entry s d old rel acc).0
    → HasOp delete r acc.0
copy_entry-no_delete s d old rel acc r h = elim (copy_entry-cases s d old rel acc) [
  | inl e ↦ subst (HasOp delete r) e h
  | inr (o, e, n) ↦ elim (HasOp-cases delete r acc.0 (o ∷ []) (subst (HasOp delete r) e h)) [
    | inl a ↦ a
    | inr b ↦ elim b [ inl (q, _) ↦ absurd (n q) | inr c ↦ absurd c ]
  ]
]

copy_known-keeps :
    (s d : Option Entry) (old : Manifest) (rel : Bytes) (acc : List Op × Manifest) (k : OpKind)
    (r : Bytes)
    → HasOp k r acc.0
    → HasOp k r (copy_known s d old rel acc).0
unfolding copy_known
copy_known-keeps none d old rel acc k r h = h
copy_known-keeps (some s) d old rel acc k r h = copy_entry-keeps s d old rel acc k r h

copy_known-no_delete :
    (s d : Option Entry) (old : Manifest) (rel : Bytes) (acc : List Op × Manifest) (r : Bytes)
    → HasOp delete r (copy_known s d old rel acc).0
    → HasOp delete r acc.0
unfolding copy_known
copy_known-no_delete none d old rel acc r h = h
copy_known-no_delete (some s) d old rel acc r h = copy_entry-no_delete s d old rel acc r h

under-exists :
    (r : Bytes) (ds : List Bytes)
    → under r ds ≡ true
    → (d : Bytes) × Among d ds × (has_prefix r (d ++ slash) ≡ true)
unfolding under
under-exists r [] h = absurd cc
under-exists r (d ∷ ds) h = elim (Bool-cases (has_prefix r (d ++ slash))) [
  | inl e ↦ (d, inl refl, e)
  | inr e ↦ let (d', i, p) = under-exists r ds (ground arith) in (d', inr i, p)
]

module _ (st dt : Tree) (old : Manifest) (deleted : List Bytes) where
  -- the destination's entry that the round is given
  abbrev pub left_over : Bytes → Option Entry
  left_over rel = remaining (lookup rel dt.entries) (under rel deleted || is_deleted rel deleted)

  pub copy_loop-keeps :
      (rs : List Bytes) (acc : List Op × Manifest) (k : OpKind) (r : Bytes)
      → HasOp k r acc.0
      → HasOp k r (copy_loop st dt old deleted rs acc).0
  unfolding copy_loop
  copy_loop-keeps [] acc k r h = h
  copy_loop-keeps (rel ∷ rs) acc k r h =
      copy_loop-keeps rs (copy_known (lookup rel st.entries) (left_over rel) old rel acc) k r
        (copy_known-keeps (lookup rel st.entries) (left_over rel) old rel acc k r h)

  copy_loop-no_delete :
      (rs : List Bytes) (acc : List Op × Manifest) (r : Bytes)
      → HasOp delete r (copy_loop st dt old deleted rs acc).0
      → HasOp delete r acc.0
  unfolding copy_loop
  copy_loop-no_delete [] acc r h = h
  copy_loop-no_delete (rel ∷ rs) acc r h =
      copy_known-no_delete (lookup rel st.entries) (left_over rel) old rel acc r (
        copy_loop-no_delete rs (copy_known (lookup rel st.entries) (left_over rel) old rel acc) r h)

module _ (st dt : Tree) (old : Manifest) where
  -- The deletions of the plan.
  abbrev pub deletions : List Bytes
  deletions = delete_loop st dt (sorted_keys dt.entries) []

  pub Among-plan : (q : Bytes) → HasOp delete q (plan st dt old).0 → Among q deletions
  unfolding plan
  Among-plan q h = Among-delete_ops q deletions (
      copy_loop-no_delete st dt old deletions (sorted_keys st.entries) (delete_ops deletions, []) q
        h)

  plan-Among : (q : Bytes) → Among q deletions → HasOp delete q (plan st dt old).0
  unfolding plan
  plan-Among q i =
      copy_loop-keeps st dt old deletions (sorted_keys st.entries) (delete_ops deletions, []) delete
        q (HasOp-delete_ops q deletions i)

  -- Nothing is deleted but what is stray: never what may be in a folder of the source that could
  -- not be listed, and never what the source has with the same kind.
  pub plan-IsStray : (q : Bytes) → HasOp delete q (plan st dt old).0 → IsStray st dt q
  plan-IsStray q h = elim (delete_loop-only st dt (sorted_keys dt.entries) [] q (Among-plan q h)) [
    | inl i ↦ absurd i
    | inr s ↦ s
  ]

  must_delete-is_some : (s d : Option Entry) → must_delete s d ≡ true → is_some d ≡ true
  unfolding must_delete
  must_delete-is_some s none h = cc
  must_delete-is_some s (some d) h = refl

  -- Whatever is stray in the destination is deleted, or a folder that it is in is.
  pub plan-deletes_stray :
      (q : Bytes)
      → IsStray st dt q
      → HasOp delete q (plan st dt old).0
        ⊎ ((d : Bytes) × HasOp delete d (plan st dt old).0 × (has_prefix q (d ++ slash) ≡ true))
  plan-deletes_stray q (u, m) =
      let i =
        Among-sorted_keys q dt.entries
          (must_delete-is_some (lookup q st.entries) (lookup q dt.entries) m) in
      elim (delete_loop-all st dt (sorted_keys dt.entries) [] q i (u, m)) [
        | inl j ↦ inl (plan-Among q j)
        | inr v ↦ let (d, j, p) = under-exists q deletions v in inr (d, plan-Among d j, p)
      ]
