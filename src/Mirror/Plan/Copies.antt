-- ===== src/Mirror/Plan/Copies.antt =====
-- The copies of runGeneric's plan (internal/mirror/generic.go).
use mathlib.Core.Path.{subst}
use shfm.Common.{
  ◌≡◌, refl, sym, ap, ◌∙◌, ◌⊎◌, inl, inr, Bool, true, false, ◌||◌, Option, none, some, List, [],
  ◌∷◌, ◌++◌, Bytes, arith, Bool-cases, Among, is_some, has_prefix,
}
use shfm.Common.Dict.{lookup}
use shfm.Mirror.Tree.{Entry, Tree, slash}
use shfm.Mirror.Plan.{
  Op, FileState, copy_as, delete, copy, Manifest, needs_copy, under, copy_loop, copy_known,
  copy_entry, remaining, plan, sorted_keys, is_stale_copy, is_deleted, delete_ops,
}
use shfm.Mirror.Plan.Order.{
  Among-sorted_keys, sorted_keys-IsSorted, is_deleted-Among, delete_loop-IsSorted,
}
use shfm.Mirror.Plan.Deletes.{
  HasOp, HasOp-append_right, copy_loop-keeps, left_over, deletions, Among-plan,
}

module _ (old : Manifest) (q : Bytes) (s : Entry) where
  copy_as-stale :
      (b c : Bool) (d : Option Entry) (f : Option FileState) (acc : List Op × Manifest)
      → b ≡ false
      → c ≡ true
      → HasOp copy q (copy_as b c d f q acc).0
  unfolding copy_as
  copy_as-stale true c d f (ops, next) e g = cc
  copy_as-stale false false d f (ops, next) e g = cc
  copy_as-stale false true d f (ops, next) e g =
      HasOp-append_right copy q ops (record { kind = copy; rel = q } ∷ []) (inl (refl, refl))

  -- The round of a stale file plans its copy.
  copy_known-stale :
      (o d : Option Entry) (acc : List Op × Manifest)
      → o ≡ some s
      → s.is_dir ≡ false
      → is_stale_copy s d old q ≡ true
      → HasOp copy q (copy_known o d old q acc).0
  unfolding copy_known copy_entry
  copy_known-stale none d acc e f g = cc
  copy_known-stale (some t) d acc e f g =
      let p : t ≡ s = cc in
      copy_as-stale t.is_dir (is_stale_copy t d old q) d (lookup q old) acc
        (ap (λ x. x.is_dir) p ∙ f) (ap (λ x. is_stale_copy x d old q) p ∙ g)

  copy_loop-stale :
      (st dt : Tree) (deleted rs : List Bytes) (acc : List Op × Manifest)
      → Among q rs
      → lookup q st.entries ≡ some s
      → s.is_dir ≡ false
      → is_stale_copy s (left_over st dt old deleted q) old q ≡ true
      → HasOp copy q (copy_loop st dt old deleted rs acc).0
  unfolding copy_loop
  copy_loop-stale st dt deleted [] acc i e f g = absurd i
  copy_loop-stale st dt deleted (rel ∷ rs) acc (inr i) e f g =
      copy_loop-stale st dt deleted rs
        (copy_known (lookup rel st.entries) (left_over st dt old deleted rel) old rel acc) i e f g
  copy_loop-stale st dt deleted (rel ∷ rs) acc (inl p) e f g =
      copy_loop-keeps st dt old deleted rs
        (copy_known (lookup rel st.entries) (left_over st dt old deleted rel) old rel acc) copy q
        (subst
          (λ x.
            HasOp copy q
              (copy_known (lookup x st.entries) (left_over st dt old deleted x) old x acc).0)
          (sym p)
          (copy_known-stale (lookup q st.entries) (left_over st dt old deleted q) acc e f g))

under-Among :
    (q d : Bytes) (ds : List Bytes)
    → Among d ds
    → under q ds ≡ false
    → has_prefix q (d ++ slash) ≡ false
unfolding under
under-Among q d [] i h = absurd i
under-Among q d (x ∷ ds) (inl e) h = subst (λ t. has_prefix q (t ++ slash) ≡ false) e (ground arith)
under-Among q d (x ∷ ds) (inr i) h = under-Among q d ds i (ground arith)

not_stale :
    (s : Entry) (o : Option Entry) (gone : Bool) (old : Manifest) (q : Bytes)
    → is_stale_copy s (remaining o gone) old q ≡ false
    → (d : Entry) × (o ≡ some d) × (gone ≡ false) × (needs_copy s d old q ≡ false)
unfolding is_stale_copy remaining
not_stale s none gone old q h = cc
not_stale s (some d) true old q h = cc
not_stale s (some d) false old q h = (d, refl, refl, h)

module _ (st dt : Tree) (old : Manifest) (q : Bytes) (s : Entry) where
  -- The destination's file is as it was recorded beside the source's, and no deletion of the plan
  -- takes it or a folder that it is in.
  abbrev pub IsUpToDate : Type 0
  IsUpToDate =
      (d : Entry) × (lookup q dt.entries ≡ some d)
      × (needs_copy s d old q ≡ false)
      × (HasOp delete q (plan st dt old).0 → ⊥)
      × ((r : Bytes) → HasOp delete r (plan st dt old).0 → has_prefix q (r ++ slash) ≡ false)

  -- Every file of the source is copied, unless it is up to date and stays so.
  pub plan-copies :
      lookup q st.entries ≡ some s → s.is_dir ≡ false → HasOp copy q (plan st dt old).0 ⊎ IsUpToDate
  unfolding plan
  plan-copies e f =
      let ds = deletions st dt old in
      elim (Bool-cases (is_stale_copy s (left_over st dt old ds q) old q)) [
        | inl g ↦ inl (
            copy_loop-stale old q s st dt ds (sorted_keys st.entries) (delete_ops ds, [])
              (Among-sorted_keys q st.entries (ap is_some e)) e f g)
        | inr g ↦
            let (d, l, gone, fresh) =
              not_stale s (lookup q dt.entries) (under q ds || is_deleted q ds) old q g in
            inr (
              d,
              l,
              fresh,
              (λ h.
                  let sorted =
                    delete_loop-IsSorted st dt (sorted_keys dt.entries) []
                      (sorted_keys-IsSorted dt.entries) in
                  let found = is_deleted-Among ds q sorted (Among-plan st dt old q h) in
                  ground arith),
              λ r h. under-Among q r ds (Among-plan st dt old r h) (ground arith),
            )
      ]
