-- ===== src/Vault/Dispersal/Writing/Success.antt =====
-- The parts after a store of internal/vault/dispersal.go that succeeds.
use mathlib.Core.List.{reverse-append}
use shfm.Common.{
  ℕ, zero, suc, ◌+◌, ◌<◌, ◌≡◌, ◌≢◌, refl, sym, ap, ◌∙◌, inl, inr, false, Option, some, [], ◌∷◌,
  ◌++◌, reverse, Bytes, arith, Bool-cases, bytes_eq_refl, length,
}
use shfm.Backend.{Disk, Reply, ok, failed, not_supported, create, written}
use shfm.Backend.Nodes.{file}
use shfm.Backend.Frame.{find-create_written}
use shfm.Vault.Layout.Move.{move_file_ok}
use shfm.Vault.Store.Replace.{Holds}
use shfm.Vault.Dispersal.Names.{shard_suffix, dot, is_name}
use shfm.Vault.Dispersal.Names.RoundTrip.{IsGen, parse-shard_name, reverse-shard_name}
use shfm.Vault.Dispersal.Generation.{Three, three, at}
use shfm.Vault.Dispersal.Generation.Laws.{pad_for}
use shfm.Vault.Dispersal.Open.{Parts}
use shfm.Vault.Dispersal.Xor.{shards}
use shfm.Vault.Dispersal.Listing.{Listed, listed, not_listed, list_parts}
use shfm.Vault.Dispersal.Writing.{
  write_stream, temp_name, final_name, connected, write_temps, clean_up, move_part, move_parts,
  after_first, after_second, after_third, after_temps, store, tidy_as, tidy, is_stale, is_stale_as,
  shard_temp,
}
use shfm.Vault.Dispersal.Writing.Removal.{find_on-list_parts, find_on, find-remove_shards}

abbrev first_of : Bytes → ℕ
first_of [] = 0
first_of (a ∷ s) = a

first-ne :
    (i pad : ℕ) (x y : Bytes) → i < 3 → pad < 2 → (48 + i) ∷ x ≢ reverse (shard_suffix i pad) ++ y
unfolding shard_suffix
first-ne zero pad x y h p e = let q = ap first_of e in omega arith
first-ne (suc zero) pad x y h p e = let q = ap first_of e in omega arith
first-ne (suc (suc i)) pad x y h p e = let q = ap first_of e in omega arith

-- A part holds file `n` with content `c`.
abbrev pub HoldsOn : Bytes → Bytes → Option Disk → Type 0
HoldsOn n c o = (t : ℕ) × (find_on n o ≡ some (file c t))

module _ (name gen c : Bytes) where
  abbrev HoldsThe : ℕ → Parts → Type 0
  HoldsThe i p = HoldsOn (final_name name gen c i) (at i (shards c)) (at i p)

  -- All three shards of the content are on their parts, under the new generation.
  abbrev pub HoldsAll : Parts → Type 0
  HoldsAll p = HoldsThe 0 p × HoldsThe 1 p × HoldsThe 2 p

  pub write_stream-Holds :
      (n b : Bytes) (d : Disk) → (write_stream n b d).0 ≡ ok → Holds n b (write_stream n b d).1
  unfolding write_stream
  write_stream-Holds n b d e =
      let w : (create n b d).0 ≡ written = ground arith in (d.clock, find-create_written n b d w)

  module _ (g : IsGen gen) where
    pad_small : pad_for (length c) < 2
    pad_small = omega arith

    -- The shards of the new generation are kept.
    final-kept : (i : ℕ) → is_stale name gen (final_name name gen c i) ≡ false
    unfolding is_stale is_stale_as
    final-kept i = elim (Bool-cases (is_name name)) [
      | inl e ↦
          rw (parse-shard_name name gen i (pad_for (length c)) g pad_small)
            (rw e (ground (arith, bytes_eq_refl gen)))
      | inr e ↦ rw (parse-shard_name name gen i (pad_for (length c)) g pad_small) (rw e refl)
    ]

    reverse-temp_name :
        (i : ℕ) → reverse (temp_name gen i) ≡ (48 + i) ∷ (reverse gen ++ reverse shard_temp)
    reverse-temp_name i =
        reverse-append shard_temp (gen ++ (48 + i) ∷ [])
        ∙ ap (λ t. t ++ reverse shard_temp) (reverse-append gen ((48 + i) ∷ []))

    same_end :
        (i : ℕ)
        → temp_name gen i ≡ final_name name gen c i
        → (48 + i) ∷ (reverse gen ++ reverse shard_temp)
          ≡ reverse (shard_suffix i (pad_for (length c))) ++ (reverse gen ++ dot ∷ reverse name)
    same_end i e =
        sym (reverse-temp_name i)
        ∙ ap reverse e
        ∙ reverse-shard_name name gen i (pad_for (length c))

    temp-ne-final : (i : ℕ) → i < 3 → temp_name gen i ≢ final_name name gen c i
    temp-ne-final i h e =
        first-ne i (pad_for (length c)) (reverse gen ++ reverse shard_temp)
          (reverse gen ++ dot ∷ reverse name) h pad_small (same_end i e)

    -- The listing before the removal changes nothing, and neither does the removal for the new
    -- shards.
    find_on-tidy_as :
        (l : Listed) (p : Parts) (i j : ℕ)
        → find_on (final_name name gen c j) (at i (tidy_as name gen c l p))
          ≡ find_on (final_name name gen c j) (at i p)
    unfolding tidy_as
    find_on-tidy_as (listed l) p i j =
        find-remove_shards name gen l p i (final_name name gen c j) (final-kept j)
    find_on-tidy_as (not_listed e) p i j = refl

    find_on-tidy :
        (ds : Three Disk) (i j : ℕ)
        → find_on (final_name name gen c j) (at i (tidy name gen c ds))
          ≡ find_on (final_name name gen c j) (at i (connected ds))
    unfolding tidy
    find_on-tidy ds i j =
        let (l, p) = list_parts (connected ds) in
        find_on-tidy_as l p i j ∙ find_on-list_parts ds i (final_name name gen c j)

    HoldsThe-tidy :
        (ds : Three Disk) (i : ℕ) → HoldsThe i (connected ds) → HoldsThe i (tidy name gen c ds)
    HoldsThe-tidy ds i (t, h) = (t, find_on-tidy ds i i ∙ h)

    abbrev Done : Reply × Parts → Type 0
    Done (r, p) = r ≡ ok → HoldsAll p

    not-Done : (p : Parts) → Done (failed, p)
    not-Done p e = cc

    -- A shard that was written is moved to its name.
    pub moved-Holds :
        (i : ℕ) (b : Bytes) (d : Disk)
        → i < 3
        → Holds (temp_name gen i) b d
        → (move_part name gen c i d).0 ≡ ok
        → Holds (final_name name gen c i) b (move_part name gen c i d).1
    unfolding move_part
    moved-Holds i b d h w e =
        move_file_ok (temp_name gen i) (final_name name gen c i) b (temp-ne-final i h) d w e

    -- Part `i` holds the shard under its name, or still under the temporary one.
    abbrev IsFinal : ℕ → Disk → Type 0
    IsFinal i d = Holds (final_name name gen c i) (at i (shards c)) d

    abbrev IsTemp : ℕ → Disk → Type 0
    IsTemp i d = Holds (temp_name gen i) (at i (shards c)) d

    third-Done :
        (r : Reply) (ds : Three Disk)
        → IsFinal 0 ds.p0
        → IsFinal 1 ds.p1
        → (r ≡ ok → IsFinal 2 ds.p2)
        → Done (after_third name gen c r ds)
    unfolding after_third
    third-Done ok ds h0 h1 h2 =
        λ _. (HoldsThe-tidy ds 0 h0, HoldsThe-tidy ds 1 h1, HoldsThe-tidy ds 2 (h2 refl))
    third-Done failed ds h0 h1 h2 = not-Done (clean_up name gen c ds)
    third-Done not_supported ds h0 h1 h2 = not-Done (clean_up name gen c ds)

    second-Done :
        (r : Reply) (ds : Three Disk)
        → IsFinal 0 ds.p0
        → (r ≡ ok → IsFinal 1 ds.p1)
        → IsTemp 2 ds.p2
        → Done (after_second name gen c r ds)
    unfolding after_second
    second-Done ok ds h0 h1 t2 =
        let m = move_part name gen c 2 ds.p2 in
        third-Done m.0 (three ds.p0 ds.p1 m.1) h0 (h1 refl)
          (moved-Holds 2 (shards c).p2 ds.p2 (omega arith) t2)
    second-Done failed ds h0 h1 t2 = not-Done (clean_up name gen c ds)
    second-Done not_supported ds h0 h1 t2 = not-Done (clean_up name gen c ds)

    first-Done :
        (r : Reply) (ds : Three Disk)
        → (r ≡ ok → IsFinal 0 ds.p0)
        → IsTemp 1 ds.p1
        → IsTemp 2 ds.p2
        → Done (after_first name gen c r ds)
    unfolding after_first
    first-Done ok ds h0 t1 t2 =
        let m = move_part name gen c 1 ds.p1 in
        second-Done m.0 (three ds.p0 m.1 ds.p2) (h0 refl)
          (moved-Holds 1 (shards c).p1 ds.p1 (omega arith) t1) t2
    first-Done failed ds h0 t1 t2 = not-Done (clean_up name gen c ds)
    first-Done not_supported ds h0 t1 t2 = not-Done (clean_up name gen c ds)

    temps-Done :
        (r0 r1 r2 : Reply) (ds : Three Disk)
        → (r0 ≡ ok → IsTemp 0 ds.p0)
        → (r1 ≡ ok → IsTemp 1 ds.p1)
        → (r2 ≡ ok → IsTemp 2 ds.p2)
        → Done (after_temps name gen c (three r0 r1 r2) ds)
    unfolding after_temps move_parts
    temps-Done ok ok ok ds h0 h1 h2 =
        let m = move_part name gen c 0 ds.p0 in
        first-Done m.0 (three m.1 ds.p1 ds.p2)
          (moved-Holds 0 (shards c).p0 ds.p0 (omega arith) (h0 refl)) (h1 refl) (h2 refl)
    temps-Done ok ok failed ds h0 h1 h2 = not-Done (clean_up name gen c ds)
    temps-Done ok ok not_supported ds h0 h1 h2 = not-Done (clean_up name gen c ds)
    temps-Done ok failed r2 ds h0 h1 h2 = not-Done (clean_up name gen c ds)
    temps-Done ok not_supported r2 ds h0 h1 h2 = not-Done (clean_up name gen c ds)
    temps-Done failed r1 r2 ds h0 h1 h2 = not-Done (clean_up name gen c ds)
    temps-Done not_supported r1 r2 ds h0 h1 h2 = not-Done (clean_up name gen c ds)

    -- If the write of a file succeeds, whatever the backends answered on the way, the three parts
    -- hold the three shards of its content under the new generation's names; neither the listing
    -- nor the removal of older generations touches them.
    pub store-HoldsAll :
        (ds : Three Disk) → (store name gen c ds).0 ≡ ok → HoldsAll (store name gen c ds).1
    unfolding store write_temps
    store-HoldsAll ds =
        let w0 = write_stream (temp_name gen 0) (shards c).p0 ds.p0 in
        let w1 = write_stream (temp_name gen 1) (shards c).p1 ds.p1 in
        let w2 = write_stream (temp_name gen 2) (shards c).p2 ds.p2 in
        temps-Done w0.0 w1.0 w2.0 (three w0.1 w1.1 w2.1)
          (write_stream-Holds (temp_name gen 0) (shards c).p0 ds.p0)
          (write_stream-Holds (temp_name gen 1) (shards c).p1 ds.p1)
          (write_stream-Holds (temp_name gen 2) (shards c).p2 ds.p2)
