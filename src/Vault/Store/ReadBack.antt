-- ===== src/Vault/Store/ReadBack.antt =====
-- readSmallVersions after replace (internal/vault/store.go).
use shfm.Common.{
  if◌then◌else◌, ◌++◌, ℕ, ◌<◌, ◌≤◌, ◌≡◌, refl, ◌⊎◌, inl, inr, Bool, false, Option, none, some, List,
  [], ◌∷◌, Bytes, length, length-take, take, take_all, arith,
}
use shfm.Backend.{Disk, ok, read}
use mathlib.Core.Path.{subst}
use native.Mathlib.Decide.{dec_lt}
use shfm.Backend.Nodes.{find}
use shfm.Vault.Store.{
  max_small_file, read_small, exists, replace, Unread, loaded, read_small_versions, versions_loop,
  undecodable, or_first, tmp_suffix, bak_suffix,
}
use shfm.Vault.Store.Replace.{Holds, InTmp, IsRecoverable, replace-Placed}

-- The folder, once the backend answers again.
abbrev pub settled : Disk → Disk
settled d = record d { script = [] }

read_settled :
    (n c : Bytes) (d : Disk)
    → Holds n c d
    → length c ≤ max_small_file
    → read_small n (settled d) ≡ (some c, settled d)
unfolding read_small read
read_settled n c d (t, h) fits = ground arith

read_settled-none :
    (n : Bytes) (d : Disk) → find n d.nodes ≡ none → read_small n (settled d) ≡ (none, settled d)
unfolding read_small read
read_settled-none n d h = ground arith

exists_settled-none :
    (n : Bytes) (d : Disk) → find n d.nodes ≡ none → exists n (settled d) ≡ (false, settled d)
unfolding exists
exists_settled-none n d h = ground arith

module _ {A : Type 0} (decode : Bytes → Option A) where
  -- a version that decodes ends the loop
  pub loop_found :
      (n c : Bytes) (a : A) (qs : List Bytes) (first : Option Unread) (d : Disk)
      → Holds n c d
      → length c ≤ max_small_file
      → decode c ≡ some a
      → (versions_loop decode (n ∷ qs) first (settled d)).0 ≡ loaded a
  unfolding versions_loop
  loop_found n c a qs first d h fits good = rw (read_settled n c d h fits) (rw good refl)

  -- one that does not decode is passed over
  loop_undecodable :
      (n c : Bytes) (qs : List Bytes) (first : Option Unread) (d : Disk)
      → Holds n c d
      → length c ≤ max_small_file
      → decode c ≡ none
      → versions_loop decode (n ∷ qs) first (settled d)
        ≡ versions_loop decode qs (or_first first undecodable) (settled d)
  unfolding versions_loop
  loop_undecodable n c qs first d h fits bad = rw (read_settled n c d h fits) (rw bad refl)

  -- and so is one that does not exist
  pub loop_missing :
      (n : Bytes) (qs : List Bytes) (first : Option Unread) (d : Disk)
      → find n d.nodes ≡ none
      → versions_loop decode (n ∷ qs) first (settled d) ≡ versions_loop decode qs first (settled d)
  unfolding versions_loop
  loop_missing n qs first d h = rw (read_settled-none n d h) (rw (exists_settled-none n d h) refl)

  module _ (p old new : Bytes) (a b : A) (old_fits : length old ≤ max_small_file)
      (new_fits : length new ≤ max_small_file) (old_good : decode old ≡ some a)
      (new_good : decode new ≡ some b)
      (cut_short : (k : ℕ) → k < length new → decode (take k new) ≡ none) (with_bak : Bool) where
    abbrev baks : List Bytes
    baks = if with_bak then (p ++ bak_suffix) ∷ [] else []

    take_fits : (k : ℕ) → length (take k new) ≤ max_small_file
    take_fits k = omega (arith, length-take k new)

    pub read_in_place :
        (d : Disk) (c : Bytes) (x : A)
        → Holds p c d
        → length c ≤ max_small_file
        → decode c ≡ some x
        → (read_small_versions decode p with_bak (settled d)).0 ≡ loaded x
    unfolding read_small_versions
    read_in_place d c x h fits good = loop_found p c x ((p ++ tmp_suffix) ∷ baks) none d h fits good

    read-InTmp :
        (d : Disk)
        → InTmp p old new d
        → (read_small_versions decode p with_bak (settled d)).0 ≡ loaded b
    unfolding read_small_versions
    read-InTmp d (t, inl gone) =
        rw (loop_missing p ((p ++ tmp_suffix) ∷ baks) none d gone)
          (loop_found (p ++ tmp_suffix) new b baks none d t new_fits new_good)
    read-InTmp d (t, inr (k, h)) = elim (dec_lt k (length new)) [
      | yes short ↦
          rw
            (loop_undecodable p (take k new) ((p ++ tmp_suffix) ∷ baks) none d h (take_fits k)
              (cut_short k short))
            (loop_found (p ++ tmp_suffix) new b baks (some undecodable) d t new_fits new_good)
      | no long ↦
          let whole : take k new ≡ new = take_all k new (omega arith) in
          loop_found p new b ((p ++ tmp_suffix) ∷ baks) none d (subst (λ c. Holds p c d) whole h)
            new_fits new_good
    ]

    pub recovered :
        (d : Disk)
        → IsRecoverable p old new d
        → ((read_small_versions decode p with_bak (settled d)).0 ≡ loaded a)
          ⊎ ((read_small_versions decode p with_bak (settled d)).0 ≡ loaded b)
    recovered d (inl h) = inl (read_in_place d old a h old_fits old_good)
    recovered d (inr (inl h)) = inr (read_in_place d new b h new_fits new_good)
    recovered d (inr (inr h)) = inr (read-InTmp d h)

    -- Suppose that the file holds a version that decodes, that the new version decodes and no
    -- proper start of it does (the age format is authenticated), and that both are within the
    -- size limit. Whatever the calls of `replace` do, once the backend answers again the file
    -- reads as the old version or as the new one; after a success, as the new one.
    pub read-replace :
        (keep_bak : Bool) (d : Disk)
        → Holds p old d
        → (((read_small_versions decode p with_bak (settled (replace p new keep_bak d).1)).0
              ≡ loaded a)
            ⊎ ((read_small_versions decode p with_bak (settled (replace p new keep_bak d).1)).0
                ≡ loaded b))
          × ((replace p new keep_bak d).0 ≡ ok
              → (read_small_versions decode p with_bak (settled (replace p new keep_bak d).1)).0
                ≡ loaded b)
    read-replace keep_bak d o =
        let d' = (replace p new keep_bak d).1 in
        let (safe, done) = replace-Placed p old new keep_bak d o in
        (recovered d' safe, λ e. read_in_place d' new b (done e) new_fits new_good)
