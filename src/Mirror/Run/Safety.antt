-- ===== src/Mirror/Run/Safety.antt =====
-- What runGeneric of internal/mirror/generic.go may delete, by what is in the source's folder.
use mathlib.Core.Path.{subst}
use shfm.Common.{
  ◌≡◌, refl, sym, ap, ◌∙◌, ◌⊎◌, inl, inr, Bool, true, false, Option, none, some, List, [], ◌∷◌,
  Bytes, arith, Bool-cases, Option-cases, is_some, bytes_eq,
}
use shfm.Common.Dict.{lookup}
use shfm.Mirror.Tree.{Entry, Folder, walk, unknown}
use shfm.Mirror.Tree.Walked.{IsIn, walk-IsCovered}
use shfm.Mirror.Plan.{Manifest, Op, delete, plan, must_delete, differs}
use shfm.Mirror.Plan.Deletes.{HasOp, plan-IsStray}
use shfm.Mirror.Run.{keep_unless, drop_symlinks, without_links, mirror_plan}

lookup-keep_unless :
    (b : Bool) (q k : Bytes) (v s : Entry) (m : List (Bytes × Entry))
    → (bytes_eq k q ≡ true → (v ≡ s) × (b ≡ false))
    → (bytes_eq k q ≡ false → lookup q m ≡ some s)
    → lookup q (keep_unless b (k, v) m) ≡ some s
unfolding lookup keep_unless
lookup-keep_unless true q k v s m here below = elim (Bool-cases (bytes_eq k q)) [
  | inl h ↦ let f : true ≡ false = (here h).1 in cc f
  | inr h ↦ below h
]
lookup-keep_unless false q k v s m here below = elim (Bool-cases (bytes_eq k q)) [
  | inl h ↦ rw h (ap some (here h).0)
  | inr h ↦ rw h (below h)
]

lookup-drop_symlinks :
    (q : Bytes) (m : List (Bytes × Entry)) (s : Entry)
    → lookup q m ≡ some s
    → s.is_symlink ≡ false
    → lookup q (drop_symlinks m) ≡ some s
unfolding lookup drop_symlinks
lookup-drop_symlinks q [] s e n = cc
lookup-drop_symlinks q ((k, v) ∷ m) s e n =
    lookup-keep_unless v.is_symlink q k v s (drop_symlinks m)
      (λ h. let p : v ≡ s = ground arith in (p, ap (λ x. x.is_symlink) p ∙ n))
      (λ h. lookup-drop_symlinks q m s (ground arith) n)

module _ (src dst : Folder) (old : Manifest) (ops : List Op) (next : Manifest) where
  -- The source's walk shows `q` as a symbolic link, or as a folder where the destination has a
  -- file, or the other way round.
  abbrev pub IsReplaced : Bytes → Type 0
  IsReplaced q =
      (s : Entry) × (lookup q (walk src).entries ≡ some s)
      × ((s.is_symlink ≡ true)
          ⊎ ((d : Entry) × (lookup q (walk dst).entries ≡ some d) × (differs (some s) d ≡ true)))

  planned :
      mirror_plan src dst old ≡ some (ops, next)
      → plan (without_links (walk src)) (walk dst) old ≡ (ops, next)
  unfolding mirror_plan
  planned h = ground arith

  kind_differs :
      (s : Entry) (o : Option Entry)
      → must_delete (some s) o ≡ true
      → (d : Entry) × (o ≡ some d) × (differs (some s) d ≡ true)
  unfolding must_delete
  kind_differs s none h = cc
  kind_differs s (some d) h = (d, refl, h)

  -- What is really in the source's folder, at any depth, is deleted from the destination only if
  -- the source's walk shows it with another kind: whatever is in a folder that could not be listed
  -- stays.
  pub mirror_plan-IsReplaced :
      (q : Bytes)
      → mirror_plan src dst old ≡ some (ops, next)
      → HasOp delete q ops
      → IsIn src [] q
      → IsReplaced q
  unfolding unknown
  mirror_plan-IsReplaced q h del here =
      let t = walk src in
      let (known, stray) =
        plan-IsStray (without_links t) (walk dst) old q
          (subst (λ r. HasOp delete q r.0) (sym (planned h)) del) in
      elim (walk-IsCovered q src here) [
        | inr u ↦ let f : true ≡ false = sym u ∙ known in absurd (cc f)
        | inl e ↦ elim (Option-cases (lookup q t.entries)) [
          | inl n ↦ let f : false ≡ true = ap is_some (sym n) ∙ e in absurd (cc f)
          | inr (s, l) ↦ elim (Bool-cases s.is_symlink) [
            | inl link ↦ (s, l, inl link)
            | inr link ↦
                let kept = lookup-drop_symlinks q t.entries s l link in
                (
                  s,
                  l,
                  inr (
                      kind_differs s (lookup q (walk dst).entries)
                        (ap (λ o. must_delete o (lookup q (walk dst).entries)) (sym kept) ∙ stray)),
                )
          ]
        ]
      ]
