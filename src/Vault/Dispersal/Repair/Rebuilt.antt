-- ===== src/Vault/Dispersal/Repair/Rebuilt.antt =====
-- The parts after rebuild of internal/vault/dispersal.go.
use mathlib.Core.Path.{subst}
use shfm.Common.{
  ℕ, ◌<◌, ◌≡◌, refl, sym, ap, ◌∙◌, Option, none, some, Bool, true, false, Bytes, length, arith,
}
use shfm.Backend.{Disk, list, Reply, ok, failed, not_supported}
use shfm.Vault.Store.Replace.{Holds}
use shfm.Vault.Dispersal.Names.RoundTrip.{IsGen}
use shfm.Vault.Dispersal.Generation.{Three, three, at, Generation}
use shfm.Vault.Dispersal.Generation.Laws.{IsWrite}
use shfm.Vault.Dispersal.Xor.{shards}
use shfm.Vault.Dispersal.Open.AnyTwo.{HoldsShards}
use shfm.Vault.Dispersal.Listing.{Listing, listed, generation, lookup_entry}
use shfm.Vault.Dispersal.Opening.{listing_for, open_file, copy_opened}
use shfm.Vault.Dispersal.Opening.Whole.{copy-open_file}
use shfm.Backend.Frame.{nodes-list}
use shfm.Vault.Dispersal.Writing.{write_stream, temp_name, final_name, move_part, connected}
use shfm.Vault.Dispersal.Writing.Success.{write_stream-Holds, moved-Holds}
use shfm.Vault.Dispersal.Repair.{
  undo, move_rebuilt, rebuild_part, rebuild_third, rebuild_second, rebuild_parts, rebuild_from,
  rebuild, asked,
}

module _ (name : Bytes) (g : Generation) (c : Bytes) (hex : IsGen g.gen) where
  -- A part that had its shard is untouched; one that had not holds it.
  abbrev pub IsWhole : ℕ → Bool → Disk → Disk → Type 0
  IsWhole i true d e = e.nodes ≡ d.nodes
  IsWhole i false d e = Holds (final_name name g.gen c i) (at i (shards c)) e

  abbrev Good : ℕ → Bool → Disk → Reply × Disk → Type 0
  Good i b d (r, e) = r ≡ ok → IsWhole i b d e

  undo-Good :
      (i : ℕ) (r : Reply) (d e : Disk)
      → (r ≡ ok → IsWhole i false d e)
      → Good i false d (undo name g i r e)
  unfolding undo
  undo-Good i ok d e h = h
  undo-Good i failed d e h = λ q. cc
  undo-Good i not_supported d e h = λ q. cc

  move_rebuilt-Good :
      (i : ℕ) (r : Reply) (d e : Disk)
      → i < 3
      → (r ≡ ok → Holds (temp_name g.gen i) (at i (shards c)) e)
      → Good i false d (move_rebuilt name g c i r e)
  unfolding move_rebuilt
  move_rebuilt-Good i ok d e l h =
      let m = move_part name g.gen c i e in
      undo-Good i m.0 d m.1 (moved-Holds name g.gen c hex i (at i (shards c)) e l (h refl))
  move_rebuilt-Good i failed d e l h = λ q. cc
  move_rebuilt-Good i not_supported d e l h = λ q. cc

  rebuild_part-Good :
      (i : ℕ) (b : Bool) (d : Disk) → i < 3 → Good i b d (rebuild_part name g c i b d)
  unfolding rebuild_part
  rebuild_part-Good i true d l = λ q. refl
  rebuild_part-Good i false d l =
      let w = write_stream (temp_name g.gen i) (at i (shards c)) d in
      move_rebuilt-Good i w.0 d w.1 l
        (write_stream-Holds name g.gen c (temp_name g.gen i) (at i (shards c)) d)

  -- All three parts of `es` are whole, from `ds`.
  abbrev pub AllWhole : Three Disk → Three Disk → Type 0
  AllWhole ds es =
      IsWhole 0 g.have.p0 ds.p0 es.p0
      × IsWhole 1 g.have.p1 ds.p1 es.p1
      × IsWhole 2 g.have.p2 ds.p2 es.p2

  rebuild_third-AllWhole :
      (r : Reply) (ds es : Three Disk)
      → es.p2 ≡ ds.p2
      → (r ≡ ok → IsWhole 0 g.have.p0 ds.p0 es.p0 × IsWhole 1 g.have.p1 ds.p1 es.p1)
      → (rebuild_third name g c r es).0 ≡ ok
      → AllWhole ds (rebuild_third name g c r es).1
  unfolding rebuild_third
  rebuild_third-AllWhole ok ds es same h e =
      let (w0, w1) = h refl in
      (
        w0,
        w1,
        subst (λ d. IsWhole 2 g.have.p2 d (rebuild_part name g c 2 g.have.p2 es.p2).1) same
            (rebuild_part-Good 2 g.have.p2 es.p2 (omega arith) e),
      )
  rebuild_third-AllWhole failed ds es same h e = cc
  rebuild_third-AllWhole not_supported ds es same h e = cc

  rebuild_second-AllWhole :
      (r : Reply) (ds es : Three Disk)
      → es.p1 ≡ ds.p1
      → es.p2 ≡ ds.p2
      → (r ≡ ok → IsWhole 0 g.have.p0 ds.p0 es.p0)
      → (rebuild_second name g c r es).0 ≡ ok
      → AllWhole ds (rebuild_second name g c r es).1
  unfolding rebuild_second
  rebuild_second-AllWhole ok ds es same1 same2 h e =
      let m = rebuild_part name g c 1 g.have.p1 es.p1 in
      rebuild_third-AllWhole m.0 ds (three es.p0 m.1 es.p2) same2
        (λ q. (
          h refl,
          subst (λ d. IsWhole 1 g.have.p1 d m.1) same1
              (rebuild_part-Good 1 g.have.p1 es.p1 (omega arith) q),
        ))
        e
  rebuild_second-AllWhole failed ds es same1 same2 h e = cc
  rebuild_second-AllWhole not_supported ds es same1 same2 h e = cc

  rebuild_parts-AllWhole :
      (ds : Three Disk)
      → (rebuild_parts name g c ds).0 ≡ ok
      → AllWhole ds (rebuild_parts name g c ds).1
  unfolding rebuild_parts
  rebuild_parts-AllWhole ds =
      let m = rebuild_part name g c 0 g.have.p0 ds.p0 in
      rebuild_second-AllWhole m.0 ds (three m.1 ds.p1 ds.p2) refl refl
        (rebuild_part-Good 0 g.have.p0 ds.p0 (omega arith))

  IsWhole-asked :
      (i : ℕ) (b : Bool) (d d' e : Disk) → d'.nodes ≡ d.nodes → IsWhole i b d' e → IsWhole i b d e
  IsWhole-asked i true d d' e same h = h ∙ same
  IsWhole-asked i false d d' e same h = h

  AllWhole-asked :
      (cached : Option Listing) (ds es : Three Disk)
      → AllWhole (asked cached ds) es
      → AllWhole ds es
  unfolding asked
  AllWhole-asked none ds es (a, b, d) = (
    IsWhole-asked 0 g.have.p0 ds.p0 (list ds.p0).1 es.p0 (nodes-list ds.p0) a,
    IsWhole-asked 1 g.have.p1 ds.p1 (list ds.p1).1 es.p1 (nodes-list ds.p1) b,
    IsWhole-asked 2 g.have.p2 ds.p2 (list ds.p2).1 es.p2 (nodes-list ds.p2) d,
  )
  AllWhole-asked (some l) ds es h = h

  -- Suppose that lookup finds, in a listing that is cached or fresh, a generation `h` of the file that
  -- is a write of content `c` whose shards can be opened. If rebuilding `g` succeeds, then every part
  -- that lacked its shard holds under the name of `g`'s shard that of `c`, and what stands on the
  -- others is as it was. `h` need not be `g`.
  pub rebuild-AllWhole :
      (ds : Three Disk) (cached : Option Listing) (l : Listing) (h : Generation) (fuel k : ℕ)
      → (listing_for cached (connected ds)).0 ≡ listed l
      → lookup_entry l name ≡ generation h
      → IsWrite (length c) h
      → HoldsShards (listing_for cached (connected ds)).1 name c h
      → 0 < k
      → length c < fuel
      → (rebuild name g cached fuel k ds).0 ≡ ok
      → AllWhole ds (rebuild name g cached fuel k ds).1
  unfolding rebuild
  rebuild-AllWhole ds cached l h fuel k listing found w holds room enough =
      let q : rebuild_from name g (copy_opened fuel k (open_file cached name (connected ds)))
            (asked cached ds)
          ≡ rebuild_parts name g c (asked cached ds) =
        unfold rebuild_from in
        ap (λ o. rebuild_from name g o (asked cached ds))
          (copy-open_file cached name c (connected ds) l h fuel k listing found w holds room
            enough) in
      subst (λ x. x.0 ≡ ok → AllWhole ds x.1) (sym q)
        (λ e.
          AllWhole-asked cached ds (rebuild_parts name g c (asked cached ds)).1
            (rebuild_parts-AllWhole (asked cached ds) e))
