-- ===== src/Backend/Frame.antt =====
-- What each call of a backend (internal/vfs/vfs.go) leaves at the names that it is given and at others.
use shfm.Common.{
  ℕ, ◌≡◌, ◌≢◌, refl, sym, ◌⊎◌, inl, inr, none, some, Bytes, take, length, is_some, true, take_all,
  bytes_eq_iff, arith, ap, ◌∙◌, Option-cases,
}
use native.Mathlib.Nat.{le_refl}
use shfm.Backend.{
  Disk, Outcome, success, lost, refused, unsupported, cut, outcome, ok, not_supported, written,
  stat, read, create, create_as, remove, rename, list, outcome, next, success, lost,
}
use shfm.Backend.Nodes.{
  file, find, delete, find-delete, find-put_self, find-put_ne, find-delete_ne, find-delete_self,
}

pub nodes-stat : (n : Bytes) (d : Disk) → (stat n d).1.nodes ≡ d.nodes
unfolding stat
nodes-stat n d = ground arith

pub nodes-read : (n : Bytes) (d : Disk) → (read n d).1.nodes ≡ d.nodes
unfolding read
nodes-read n d = ground arith

pub nodes-list : (d : Disk) → (list d).1.nodes ≡ d.nodes
unfolding list
nodes-list d = ground arith

-- What an answer of `stat` or `read` says of the folder.
pub read-eq_some :
    (n : Bytes) (d : Disk) (c : Bytes)
    → (read n d).0 ≡ some c
    → (t : ℕ) × (find n d.nodes ≡ some (file c t))
unfolding read
read-eq_some n d c h = ground arith

module _ (n c : Bytes) (d : Disk) where
  create_as_ne :
      (o : Outcome) (k : Bytes) → n ≢ k → find k (create_as o n c d).1.nodes ≡ find k d.nodes
  unfolding create_as
  create_as_ne success k h = find-put_ne _ _ h
  create_as_ne lost k h = find-put_ne _ _ h
  create_as_ne refused k h = refl
  create_as_ne unsupported k h = refl
  create_as_ne (cut i) k h = find-put_ne _ _ h

  pub find-create_ne : (k : Bytes) → n ≢ k → find k (create n c d).1.nodes ≡ find k d.nodes
  unfolding create
  find-create_ne k h = create_as_ne (outcome d) k h

  create_as_written :
      (o : Outcome)
      → (create_as o n c d).0 ≡ written
      → find n (create_as o n c d).1.nodes ≡ some (file c d.clock)
  unfolding create_as
  create_as_written success h = find-put_self _ _ _
  create_as_written lost h = cc
  create_as_written refused h = cc
  create_as_written unsupported h = cc
  create_as_written (cut i) h = cc

  pub find-create_written :
      (create n c d).0 ≡ written → find n (create n c d).1.nodes ≡ some (file c d.clock)
  unfolding create
  find-create_written h = create_as_written (outcome d) h

  create_as_target :
      (o : Outcome)
      → (find n (create_as o n c d).1.nodes ≡ find n d.nodes)
        ⊎ ((k : ℕ) × (find n (create_as o n c d).1.nodes ≡ some (file (take k c) d.clock)))
  unfolding create_as
  create_as_target success = inr (
    length c,
    find-put_self _ _ _ ∙ ap (λ t. some (file t d.clock)) (sym (take_all _ c (le_refl _))),
  )
  create_as_target lost = inr (
    length c,
    find-put_self _ _ _ ∙ ap (λ t. some (file t d.clock)) (sym (take_all _ c (le_refl _))),
  )
  create_as_target refused = inl refl
  create_as_target unsupported = inl refl
  create_as_target (cut i) = inr (i, find-put_self _ _ _)

  -- However the writing ends, what stands at `n` is the old node or a start of `c`.
  pub find-create :
      (find n (create n c d).1.nodes ≡ find n d.nodes)
      ⊎ ((k : ℕ) × (find n (create n c d).1.nodes ≡ some (file (take k c) d.clock)))
  unfolding create
  find-create = create_as_target (outcome d)

module _ (n : Bytes) (d : Disk) where
  pub find-remove_ne : (k : Bytes) → n ≢ k → find k (remove n d).1.nodes ≡ find k d.nodes
  unfolding remove
  find-remove_ne k h = ground (arith, find-delete n k d.nodes, bytes_eq_iff n k)

  pub find-remove :
      (find n (remove n d).1.nodes ≡ find n d.nodes) ⊎ (find n (remove n d).1.nodes ≡ none)
  unfolding remove
  find-remove = ground (arith, find-delete_self n d.nodes)

  pub find-remove_ok : (remove n d).0 ≡ ok → find n (remove n d).1.nodes ≡ none
  unfolding remove
  find-remove_ok h = ground (arith, find-delete_self n d.nodes)

module _ (from to : Bytes) (d : Disk) where
  pub find-rename_ne :
      (k : Bytes) → from ≢ k → to ≢ k → find k (rename from to d).1.nodes ≡ find k d.nodes
  unfolding rename
  find-rename_ne k h g = elim (Option-cases (find from d.nodes)) [
    | inl e ↦ ground arith
    | inr (v, e) ↦ ground (arith, find-put_ne v (delete from d.nodes) g, find-delete_ne d.nodes h)
  ]

  -- Whatever it reports, the node moved or nothing changed.
  pub find-rename :
      from ≢ to
      → ((rename from to d).1.nodes ≡ d.nodes)
        ⊎ (find to (rename from to d).1.nodes ≡ find from d.nodes)
          × (find from (rename from to d).1.nodes ≡ none)
  unfolding rename
  find-rename h = elim (Option-cases (find from d.nodes)) [
    | inl e ↦ ground arith
    | inr (v, e) ↦ ground (
      arith,
      find-put_self to v (delete from d.nodes),
      find-put_ne v (delete from d.nodes) (λ p. h (sym p)),
      find-delete_self from d.nodes,
    )
  ]

  pub find-rename_ok :
      (rename from to d).0 ≡ ok → find to (rename from to d).1.nodes ≡ find from d.nodes
  unfolding rename
  find-rename_ok h = elim (Option-cases (find from d.nodes)) [
    | inl e ↦ ground arith
    | inr (v, e) ↦ ground (arith, find-put_self to v (delete from d.nodes))
  ]

  pub find-rename_gone :
      from ≢ to → (rename from to d).0 ≡ ok → find from (rename from to d).1.nodes ≡ none
  unfolding rename
  find-rename_gone h e = elim (Option-cases (find from d.nodes)) [
    | inl n ↦ ground arith
    | inr (v, n) ↦
        ground (
          arith,
          find-put_ne v (delete from d.nodes) (λ p. h (sym p)),
          find-delete_self from d.nodes,
        )
  ]

  -- A rename that fails without having done its work changes nothing.
  pub nodes-rename_failed :
      outcome d ≢ lost → (rename from to d).0 ≢ ok → (rename from to d).1.nodes ≡ d.nodes
  unfolding rename
  nodes-rename_failed h g = elim (Option-cases (find from d.nodes)) [
    | inl e ↦ ground arith
    | inr (v, e) ↦ ground arith
  ]

  rename_served :
      outcome d ≡ success → is_some (find from d.nodes) ≡ true → (rename from to d).0 ≡ ok
  unfolding rename
  rename_served s f = elim (Option-cases (find from d.nodes)) [
    | inl e ↦ ground arith
    | inr (v, e) ↦ ground arith
  ]

  rename_ok-found : (rename from to d).0 ≡ ok → is_some (find from d.nodes) ≡ true
  unfolding rename
  rename_ok-found h = elim (Option-cases (find from d.nodes)) [
    | inl e ↦ ground arith
    | inr (v, e) ↦ ground arith
  ]

  outcome-rename : outcome (rename from to d).1 ≡ outcome (next d)
  unfolding rename
  outcome-rename = elim (Option-cases (find from d.nodes)) [
    | inl e ↦ ground arith
    | inr (v, e) ↦ ground arith
  ]

  pub nodes-rename_unsupported :
      (rename from to d).0 ≡ not_supported → (rename from to d).1.nodes ≡ d.nodes
  unfolding rename
  nodes-rename_unsupported h = elim (Option-cases (find from d.nodes)) [
    | inl e ↦ ground arith
    | inr (v, e) ↦ ground arith
  ]

-- A rename that succeeded is undone by one that is served.
pub find-rename_undone :
    (from to : Bytes) (d : Disk)
    → (rename from to d).0 ≡ ok
    → outcome (next d) ≡ success
    → find from (rename to from (rename from to d).1).1.nodes ≡ find from d.nodes
find-rename_undone from to d h s =
    let e = (rename from to d).1 in
    let there = find-rename_ok from to d h in
    find-rename_ok to from e (
      rename_served to from e (outcome-rename from to d ∙ s)
        (ap is_some there ∙ rename_ok-found from to d h))
    ∙ there
