-- ===== src/Vault/Dispersal/Renaming/Moved.antt =====
-- The parts after the renames of Rename (internal/vault/dispersal.go).
use mathlib.Core.Path.{subst}
use mathlib.Core.List.{append_cancel_right}
use shfm.Common.{ℕ, ◌≡◌, ◌≢◌, refl, ◌∙◌, none, ◌∷◌, ◌++◌, Bool, true, false, Bytes}
use shfm.Backend.{Disk, Reply, ok, failed, not_supported}
use shfm.Backend.Nodes.{find}
use shfm.Backend.Frame.{find-rename_ne, find-rename_ok, find-rename_gone}
use shfm.Vault.Dispersal.Names.{shard_name, shard_suffix, dot}
use shfm.Vault.Dispersal.Generation.{Three, three, Generation}
use shfm.Vault.Dispersal.Renaming.{
  old_shard, new_shard, rename_shard, undo_rename, undo_two, undo_one, rename_third, rename_second,
  rename_first, rename_shards,
}
use shfm.Vault.Dispersal.Renaming.Back.{IsFair, AllBack, rename_shards-AllBack}

module _ (old new : Bytes) (g : Generation) where
  shards_apart : old ≢ new → (i : ℕ) → old_shard old new g i ≢ new_shard old new g i
  unfolding shard_name
  shards_apart h i e = h (append_cancel_right old new (dot ∷ (g.gen ++ shard_suffix i g.pad)) e)

  -- What stood at the shard's old name stands at the new one, and no longer at the old one, if the
  -- part had the shard.
  abbrev pub IsMoved : ℕ → Bool → Disk → Disk → Type 0
  IsMoved i true d e =
      (find (new_shard old new g i) e.nodes ≡ find (old_shard old new g i) d.nodes)
      × (find (old_shard old new g i) e.nodes ≡ none)
  IsMoved i false d e = e ≡ d

  -- Every other name is as it was.
  abbrev pub SameElse : ℕ → Disk → Disk → Type 0
  SameElse i d e =
      (k : Bytes)
      → old_shard old new g i ≢ k
      → new_shard old new g i ≢ k
      → find k e.nodes ≡ find k d.nodes

  shard-IsMoved :
      old ≢ new
      → (i : ℕ) (b : Bool) (d : Disk) → (rename_shard old new g i b d).0 ≡ ok
      → IsMoved i b d (rename_shard old new g i b d).1
  unfolding rename_shard
  shard-IsMoved h i true d e = (
    find-rename_ok (old_shard old new g i) (new_shard old new g i) d e,
    find-rename_gone (old_shard old new g i) (new_shard old new g i) d (shards_apart h i) e,
  )
  shard-IsMoved h i false d e = refl

  shard-SameElse : (i : ℕ) (b : Bool) (d : Disk) → SameElse i d (rename_shard old new g i b d).1
  unfolding rename_shard
  shard-SameElse i true d k h l =
      find-rename_ne (old_shard old new g i) (new_shard old new g i) d k h l
  shard-SameElse i false d k h l = refl

  undo-SameElse : (i : ℕ) (b : Bool) (d : Disk) → SameElse i d (undo_rename old new g i b d)
  unfolding undo_rename
  undo-SameElse i true d k h l =
      find-rename_ne (new_shard old new g i) (old_shard old new g i) d k l h
  undo-SameElse i false d k h l = refl

  else_trans : (i : ℕ) (d e f : Disk) → SameElse i d e → SameElse i e f → SameElse i d f
  else_trans i d e f p q k h l = q k h l ∙ p k h l

  abbrev pub AllMoved : Three Disk → Three Disk → Type 0
  AllMoved ds es =
      IsMoved 0 g.have.p0 ds.p0 es.p0
      × IsMoved 1 g.have.p1 ds.p1 es.p1
      × IsMoved 2 g.have.p2 ds.p2 es.p2

  abbrev pub AllElse : Three Disk → Three Disk → Type 0
  AllElse ds es = SameElse 0 ds.p0 es.p0 × SameElse 1 ds.p1 es.p1 × SameElse 2 ds.p2 es.p2

  abbrev Renamed : Three Disk → Reply × Three Disk → Type 0
  Renamed ds (r, es) = (r ≡ ok → AllMoved ds es) × AllElse ds es

  undo_one-AllElse : (ds es : Three Disk) → AllElse ds es → AllElse ds (undo_one old new g es)
  unfolding undo_one
  undo_one-AllElse ds es (s0, s1, s2) =
      let d0 = undo_rename old new g 0 g.have.p0 es.p0 in
      (else_trans 0 ds.p0 es.p0 d0 s0 (undo-SameElse 0 g.have.p0 es.p0), s1, s2)

  undo_two-AllElse : (ds es : Three Disk) → AllElse ds es → AllElse ds (undo_two old new g es)
  unfolding undo_two
  undo_two-AllElse ds es (s0, s1, s2) =
      let d0 = undo_rename old new g 0 g.have.p0 es.p0 in
      let d1 = undo_rename old new g 1 g.have.p1 es.p1 in
      (
        else_trans 0 ds.p0 es.p0 d0 s0 (undo-SameElse 0 g.have.p0 es.p0),
        else_trans 1 ds.p1 es.p1 d1 s1 (undo-SameElse 1 g.have.p1 es.p1),
        s2,
      )

  third-Renamed :
      (r : Reply) (ds es : Three Disk)
      → (r ≡ ok → AllMoved ds es)
      → AllElse ds es
      → Renamed ds (rename_third old new g r es)
  unfolding rename_third
  third-Renamed ok ds es m s = (m, s)
  third-Renamed failed ds es m s = (λ e. cc, undo_two-AllElse ds es s)
  third-Renamed not_supported ds es m s = (λ e. cc, undo_two-AllElse ds es s)

  second-Renamed :
      old ≢ new
      → (r : Reply) (ds es : Three Disk) → es.p2 ≡ ds.p2
      → (r ≡ ok → IsMoved 0 g.have.p0 ds.p0 es.p0 × IsMoved 1 g.have.p1 ds.p1 es.p1)
      → AllElse ds es
      → Renamed ds (rename_second old new g r es)
  unfolding rename_second
  second-Renamed apart ok ds es same m (s0, s1, s2) =
      let t = rename_shard old new g 2 g.have.p2 es.p2 in
      third-Renamed t.0 ds (three es.p0 es.p1 t.1)
        (λ e.
          let (m0, m1) = m refl in
          (
            m0,
            m1,
            subst (λ d. IsMoved 2 g.have.p2 d t.1) same (shard-IsMoved apart 2 g.have.p2 es.p2 e),
          ))
        (s0, s1, else_trans 2 ds.p2 es.p2 t.1 s2 (shard-SameElse 2 g.have.p2 es.p2))
  second-Renamed apart failed ds es same m s = (λ e. cc, undo_one-AllElse ds es s)
  second-Renamed apart not_supported ds es same m s = (λ e. cc, undo_one-AllElse ds es s)

  first-Renamed :
      old ≢ new
      → (r : Reply) (ds es : Three Disk) → es.p1 ≡ ds.p1
      → es.p2 ≡ ds.p2
      → (r ≡ ok → IsMoved 0 g.have.p0 ds.p0 es.p0)
      → AllElse ds es
      → Renamed ds (rename_first old new g r es)
  unfolding rename_first
  first-Renamed apart ok ds es same1 same2 m (s0, s1, s2) =
      let t = rename_shard old new g 1 g.have.p1 es.p1 in
      second-Renamed apart t.0 ds (three es.p0 t.1 es.p2) same2
        (λ e. (
          m refl,
          subst (λ d. IsMoved 1 g.have.p1 d t.1) same1 (shard-IsMoved apart 1 g.have.p1 es.p1 e),
        ))
        (s0, else_trans 1 ds.p1 es.p1 t.1 s1 (shard-SameElse 1 g.have.p1 es.p1), s2)
  first-Renamed apart failed ds es same1 same2 m s = (λ e. cc, s)
  first-Renamed apart not_supported ds es same1 same2 m s = (λ e. cc, s)

  rename_shards-Renamed : old ≢ new → (ds : Three Disk) → Renamed ds (rename_shards old new g ds)
  unfolding rename_shards
  rename_shards-Renamed apart ds =
      let t = rename_shard old new g 0 g.have.p0 ds.p0 in
      first-Renamed apart t.0 ds (three t.1 ds.p1 ds.p2) refl refl
        (shard-IsMoved apart 0 g.have.p0 ds.p0)
        (shard-SameElse 0 g.have.p0 ds.p0, (λ k h l. refl), λ k h l. refl)

  -- The loop of Rename over the parts, with its undo, for two different names. If it succeeds, then
  -- on each part that had its shard, what stood at the old name stands at the new one and no longer
  -- at the old one, and the other parts are as they were. If it fails, where a failing call did
  -- nothing and the undoing calls are served, then every part has at its shard's old name what it
  -- had. Whatever happens, the loop changes no name of a part but the shard's old and new ones.
  pub rename_shards-AllMoved :
      old ≢ new
      → (ds : Three Disk)
      → let (r, es) = rename_shards old new g ds in
        (r ≡ ok → AllMoved ds es)
        × (r ≢ ok → IsFair ds.p0 × IsFair ds.p1 × IsFair ds.p2 → AllBack old new g ds es)
        × AllElse ds es
  rename_shards-AllMoved apart ds =
      let (m, e) = rename_shards-Renamed apart ds in
      (m, (λ h (f0, f1, f2). rename_shards-AllBack old new g ds f0 f1 f2 h), e)
