-- ===== src/Vault/Dispersal/Renaming/Back.antt =====
-- The parts after renames of Rename that failed and were undone (internal/vault/dispersal.go).
use mathlib.Core.Path.{subst}
use shfm.Common.{ℕ, ◌≡◌, ◌≢◌, refl, sym, ap, Bool, true, false, Bytes}
use shfm.Backend.{Disk, outcome, next, success, lost, Reply, ok, failed, not_supported}
use shfm.Backend.Nodes.{find}
use shfm.Backend.Frame.{nodes-rename_failed, find-rename_undone}
use shfm.Vault.Dispersal.Generation.{Three, three, Generation}
use shfm.Vault.Dispersal.Renaming.{
  old_shard, new_shard, rename_shard, undo_rename, undo_two, undo_one, rename_third, rename_second,
  rename_first, rename_shards,
}

-- Where a rename fails, it did nothing, and the next call is served.
abbrev pub IsFair : Disk → Type 0
IsFair d = (outcome d ≢ lost) × (outcome (next d) ≡ success)

module _ (old new : Bytes) (g : Generation) where
  abbrev IsBack : ℕ → Disk → Disk → Type 0
  IsBack i d e = find (old_shard old new g i) e.nodes ≡ find (old_shard old new g i) d.nodes

  -- Every part has at its shard's old name what it had.
  abbrev pub AllBack : Three Disk → Three Disk → Type 0
  AllBack ds es = IsBack 0 ds.p0 es.p0 × IsBack 1 ds.p1 es.p1 × IsBack 2 ds.p2 es.p2

  -- The part as the rename of its shard leaves it.
  abbrev after : ℕ → Bool → Disk → Disk
  after i b d = (rename_shard old new g i b d).1

  failed-IsBack :
      (i : ℕ) (b : Bool) (d : Disk)
      → IsFair d
      → (rename_shard old new g i b d).0 ≢ ok
      → IsBack i d (after i b d)
  unfolding rename_shard
  failed-IsBack i true d (l, s) h =
      ap (find (old_shard old new g i))
        (nodes-rename_failed (old_shard old new g i) (new_shard old new g i) d l h)
  failed-IsBack i false d f h = refl

  undone-IsBack :
      (i : ℕ) (b : Bool) (d : Disk)
      → IsFair d
      → (rename_shard old new g i b d).0 ≡ ok
      → IsBack i d (undo_rename old new g i b (after i b d))
  unfolding rename_shard undo_rename
  undone-IsBack i true d (l, s) h =
      find-rename_undone (old_shard old new g i) (new_shard old new g i) d h s
  undone-IsBack i false d f h = refl

  abbrev pub BackIf : Three Disk → Reply × Three Disk → Type 0
  BackIf ds (r, es) = r ≢ ok → AllBack ds es

  third-AllBack :
      (r : Reply) (ds es : Three Disk)
      → IsBack 0 ds.p0 (undo_rename old new g 0 g.have.p0 es.p0)
      → IsBack 1 ds.p1 (undo_rename old new g 1 g.have.p1 es.p1)
      → (r ≢ ok → IsBack 2 ds.p2 es.p2)
      → BackIf ds (rename_third old new g r es)
  unfolding rename_third undo_two
  third-AllBack ok ds es u0 u1 b h = absurd (h refl)
  third-AllBack failed ds es u0 u1 b h = (u0, u1, b h)
  third-AllBack not_supported ds es u0 u1 b h = (u0, u1, b h)

  second-AllBack :
      (r : Reply) (ds es : Three Disk)
      → IsFair ds.p2
      → es.p2 ≡ ds.p2
      → IsBack 0 ds.p0 (undo_rename old new g 0 g.have.p0 es.p0)
      → (r ≡ ok → IsBack 1 ds.p1 (undo_rename old new g 1 g.have.p1 es.p1))
      → (r ≢ ok → IsBack 1 ds.p1 es.p1)
      → BackIf ds (rename_second old new g r es)
  unfolding rename_second undo_one
  second-AllBack ok ds es f same u0 u1 b h =
      let t = rename_shard old new g 2 g.have.p2 es.p2 in
      third-AllBack t.0 ds (three es.p0 es.p1 t.1) u0 (u1 refl)
        (subst
          (λ d.
            (rename_shard old new g 2 g.have.p2 d).0 ≢ ok → IsBack 2 ds.p2 (after 2 g.have.p2 d))
          (sym same) (failed-IsBack 2 g.have.p2 ds.p2 f))
        h
  second-AllBack failed ds es f same u0 u1 b h =
      (u0, b h, ap (λ d. find (old_shard old new g 2) d.nodes) same)
  second-AllBack not_supported ds es f same u0 u1 b h =
      (u0, b h, ap (λ d. find (old_shard old new g 2) d.nodes) same)

  first-AllBack :
      (r : Reply) (d0 : Disk) (ds : Three Disk)
      → IsFair ds.p1
      → IsFair ds.p2
      → (r ≡ ok → IsBack 0 ds.p0 (undo_rename old new g 0 g.have.p0 d0))
      → (r ≢ ok → IsBack 0 ds.p0 d0)
      → BackIf ds (rename_first old new g r (three d0 ds.p1 ds.p2))
  unfolding rename_first
  first-AllBack ok d0 ds f1 f2 u0 b h =
      let t = rename_shard old new g 1 g.have.p1 ds.p1 in
      second-AllBack t.0 ds (three d0 t.1 ds.p2) f2 refl (u0 refl)
        (undone-IsBack 1 g.have.p1 ds.p1 f1) (failed-IsBack 1 g.have.p1 ds.p1 f1) h
  first-AllBack failed d0 ds f1 f2 u0 b h = (b h, refl, refl)
  first-AllBack not_supported d0 ds f1 f2 u0 b h = (b h, refl, refl)

  -- If the renames of a file's shards fail, where a failing call did nothing and the calls that undo
  -- are served, then every part has at its shard's old name what it had before.
  pub rename_shards-AllBack :
      (ds : Three Disk)
      → IsFair ds.p0
      → IsFair ds.p1
      → IsFair ds.p2
      → BackIf ds (rename_shards old new g ds)
  unfolding rename_shards
  rename_shards-AllBack ds f0 f1 f2 =
      let t = rename_shard old new g 0 g.have.p0 ds.p0 in
      first-AllBack t.0 t.1 ds f1 f2 (undone-IsBack 0 g.have.p0 ds.p0 f0)
        (failed-IsBack 0 g.have.p0 ds.p0 f0)
