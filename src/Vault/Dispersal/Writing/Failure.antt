-- ===== src/Vault/Dispersal/Writing/Failure.antt =====
-- The parts after a store of internal/vault/dispersal.go that fails.
use shfm.Common.{ℕ, ◌≡◌, ◌≢◌, refl, ◌∙◌, Bytes}
use shfm.Backend.{Disk, Reply, ok, failed, not_supported}
use shfm.Backend.Nodes.{find}
use shfm.Backend.Frame.{find-create_ne}
use shfm.Vault.Layout.Move.{find-move_file_ne}
use shfm.Vault.Store.{remove_if_exists}
use shfm.Vault.Store.Replace.{find-remove_if_exists_ne}
use shfm.Vault.Dispersal.Generation.{Three, three}
use shfm.Vault.Dispersal.Open.{Parts}
use shfm.Vault.Dispersal.Xor.{shards}
use shfm.Vault.Dispersal.Writing.{
  write_stream, temp_name, final_name, connected, write_temps, clean_part, clean_up, move_part,
  move_parts, after_first, after_second, after_third, after_temps, store,
}

module _ (name gen c : Bytes) where
  -- Between the two folders, only the two names of the shard have changed.
  abbrev pub SameBut : ℕ → Disk → Disk → Type 0
  SameBut i d e =
      (k : Bytes)
      → temp_name gen i ≢ k
      → final_name name gen c i ≢ k
      → find k e.nodes ≡ find k d.nodes

  same_refl : (i : ℕ) (d : Disk) → SameBut i d d
  same_refl i d k h g = refl

  same_trans : (i : ℕ) (d e f : Disk) → SameBut i d e → SameBut i e f → SameBut i d f
  same_trans i d e f p q k h g = q k h g ∙ p k h g

  write-SameBut :
      (i : ℕ) (b : Bytes) (d : Disk) → SameBut i d (write_stream (temp_name gen i) b d).1
  unfolding write_stream
  write-SameBut i b d k h g = find-create_ne (temp_name gen i) b d k h

  clean-SameBut : (i : ℕ) (d : Disk) → SameBut i d (clean_part name gen c i d)
  unfolding clean_part
  clean-SameBut i d k h g =
      let d1 = (remove_if_exists (temp_name gen i) d).1 in
      find-remove_if_exists_ne (final_name name gen c i) d1 k g
      ∙ find-remove_if_exists_ne (temp_name gen i) d k h

  pub move-SameBut : (i : ℕ) (d : Disk) → SameBut i d (move_part name gen c i d).1
  unfolding move_part
  move-SameBut i d k h g = find-move_file_ne (temp_name gen i) (final_name name gen c i) k h g d

  abbrev pub Same : Three Disk → Three Disk → Type 0
  Same ds es = SameBut 0 ds.p0 es.p0 × SameBut 1 ds.p1 es.p1 × SameBut 2 ds.p2 es.p2

  -- The parts are `ds` but for the names of the new shards.
  abbrev pub IsUntouched : Three Disk → Parts → Type 0
  IsUntouched ds p = (es : Three Disk) × (p ≡ connected es) × Same ds es

  abbrev Fails : Three Disk → Reply × Parts → Type 0
  Fails ds (r, p) = r ≢ ok → IsUntouched ds p

  clean-Fails : (ds es : Three Disk) → Same ds es → Fails ds (failed, clean_up name gen c es)
  unfolding clean_up
  clean-Fails ds es (s0, s1, s2) _ =
      let d0 = clean_part name gen c 0 es.p0 in
      let d1 = clean_part name gen c 1 es.p1 in
      let d2 = clean_part name gen c 2 es.p2 in
      (
        three d0 d1 d2,
        refl,
        (
          same_trans 0 ds.p0 es.p0 d0 s0 (clean-SameBut 0 es.p0),
          same_trans 1 ds.p1 es.p1 d1 s1 (clean-SameBut 1 es.p1),
          same_trans 2 ds.p2 es.p2 d2 s2 (clean-SameBut 2 es.p2),
        ),
      )

  third-Fails :
      (r : Reply) (ds es : Three Disk) → Same ds es → Fails ds (after_third name gen c r es)
  unfolding after_third
  third-Fails ok ds es s bad = absurd (bad refl)
  third-Fails failed ds es s bad = clean-Fails ds es s bad
  third-Fails not_supported ds es s bad = clean-Fails ds es s bad

  second-Fails :
      (r : Reply) (ds es : Three Disk) → Same ds es → Fails ds (after_second name gen c r es)
  unfolding after_second
  second-Fails ok ds es (s0, s1, s2) =
      let m = move_part name gen c 2 es.p2 in
      third-Fails m.0 ds (three es.p0 es.p1 m.1)
        (s0, s1, same_trans 2 ds.p2 es.p2 m.1 s2 (move-SameBut 2 es.p2))
  second-Fails failed ds es s = clean-Fails ds es s
  second-Fails not_supported ds es s = clean-Fails ds es s

  first-Fails :
      (r : Reply) (ds es : Three Disk) → Same ds es → Fails ds (after_first name gen c r es)
  unfolding after_first
  first-Fails ok ds es (s0, s1, s2) =
      let m = move_part name gen c 1 es.p1 in
      second-Fails m.0 ds (three es.p0 m.1 es.p2)
        (s0, same_trans 1 ds.p1 es.p1 m.1 s1 (move-SameBut 1 es.p1), s2)
  first-Fails failed ds es s = clean-Fails ds es s
  first-Fails not_supported ds es s = clean-Fails ds es s

  moves-Fails : (ds es : Three Disk) → Same ds es → Fails ds (move_parts name gen c es)
  unfolding move_parts
  moves-Fails ds es (s0, s1, s2) =
      let m = move_part name gen c 0 es.p0 in
      first-Fails m.0 ds (three m.1 es.p1 es.p2)
        (same_trans 0 ds.p0 es.p0 m.1 s0 (move-SameBut 0 es.p0), s1, s2)

  temps-Fails :
      (r0 r1 r2 : Reply) (ds es : Three Disk)
      → Same ds es
      → Fails ds (after_temps name gen c (three r0 r1 r2) es)
  unfolding after_temps
  temps-Fails ok ok ok ds es s = moves-Fails ds es s
  temps-Fails ok ok failed ds es s = clean-Fails ds es s
  temps-Fails ok ok not_supported ds es s = clean-Fails ds es s
  temps-Fails ok failed r2 ds es s = clean-Fails ds es s
  temps-Fails ok not_supported r2 ds es s = clean-Fails ds es s
  temps-Fails failed r1 r2 ds es s = clean-Fails ds es s
  temps-Fails not_supported r1 r2 ds es s = clean-Fails ds es s

  -- If the write of a file fails, whatever the backends did, no part has changed but for the names
  -- of the temporary file and of the shard of the new generation on it: the shards of every other
  -- generation of the file, and every other file, are as before.
  pub store-IsUntouched :
      (ds : Three Disk) → (store name gen c ds).0 ≢ ok → IsUntouched ds (store name gen c ds).1
  unfolding store write_temps
  store-IsUntouched ds =
      let w0 = write_stream (temp_name gen 0) (shards c).p0 ds.p0 in
      let w1 = write_stream (temp_name gen 1) (shards c).p1 ds.p1 in
      let w2 = write_stream (temp_name gen 2) (shards c).p2 ds.p2 in
      temps-Fails w0.0 w1.0 w2.0 ds (three w0.1 w1.1 w2.1) (
        write-SameBut 0 (shards c).p0 ds.p0,
        write-SameBut 1 (shards c).p1 ds.p1,
        write-SameBut 2 (shards c).p2 ds.p2,
      )
