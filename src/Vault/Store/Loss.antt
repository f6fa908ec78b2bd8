-- ===== src/Vault/Store/Loss.antt =====
-- A replacement that keeps no `.bak`, as that of a vault's identity (ChangePassword in
-- internal/vault/enabled.go), repeated after one that was interrupted.
use shfm.Common.{
  ℕ, ◌≤◌, ◌≡◌, refl, ◌∙◌, ap, false, Option, none, some, List, [], ◌∷◌, ◌++◌, Bytes, length, arith,
  take, ◌+◌,
}
use shfm.Backend.{stat, Disk, Outcome, cut, failed, remove, create}
use shfm.Backend.Nodes.{
  find, put, delete, find-put, find-delete, find-put_self, find-delete_self, file,
}
use shfm.Vault.Store.{max_small_file, tmp_suffix, replace, loaded, not_exist, read_small_versions}
use shfm.Vault.Store.Replace.{Holds}
use shfm.Vault.Store.ReadBack.{settled, loop_found, loop_missing}

-- the folder after the write that was cut short, and after the cleanup
abbrev left_over : Bytes → Bytes → ℕ → Disk → Disk
left_over p new k d = record d {
  nodes = delete (p ++ tmp_suffix) (put (p ++ tmp_suffix) (file (take k new) d.clock) d.nodes);
  script = [];
  clock = d.clock + 1;
}

abbrev interrupted : Disk → ℕ → Disk
interrupted d k = record d { script = cut k ∷ [] }

replace-interrupted :
    (p new : Bytes) (k : ℕ) (d : Disk)
    → replace p new false (interrupted d k) ≡ (failed, left_over p new k d)
unfolding replace create stat remove
replace-interrupted p new k d =
    ground (arith, find-put_self (p ++ tmp_suffix) (file (take k new) d.clock) d.nodes)

find-left_over :
    (p new : Bytes) (k : ℕ) (d : Disk) (n : Bytes)
    → find n d.nodes ≡ none
    → find n (left_over p new k d).nodes ≡ none
find-left_over p new k d n h = ground (
  arith,
  find-delete (p ++ tmp_suffix) n (put (p ++ tmp_suffix) (file (take k new) d.clock) d.nodes),
  find-put (p ++ tmp_suffix) n (file (take k new) d.clock) d.nodes,
)

module _ {A : Type 0} (decode : Bytes → Option A) (p old : Bytes) (a : A) where
  -- Suppose that an interrupted replacement left `p` missing and the only version in `p.tmp`,
  -- complete. It is read back; but the next replacement writes over `p.tmp` first, and if that
  -- write is cut short, at whatever byte, no version is left at all.
  pub replace-loses :
      (new : Bytes) (k : ℕ) (d : Disk)
      → Holds (p ++ tmp_suffix) old d
      → find p d.nodes ≡ none
      → d.script ≡ cut k ∷ []
      → length old ≤ max_small_file
      → decode old ≡ some a
      → ((read_small_versions decode p false (settled d)).0 ≡ loaded a)
        × ((replace p new false d).0 ≡ failed)
        × ((read_small_versions decode p false (settled (replace p new false d).1)).0 ≡ not_exist)
  unfolding read_small_versions
  replace-loses new k d h gone script fits good = (
    rw (loop_missing decode p ((p ++ tmp_suffix) ∷ []) none d gone)
        (loop_found decode (p ++ tmp_suffix) old a [] none d h fits good),
    ap (λ r. r.0) ended,
    rw (ap (λ r. r.1) ended) nothing_left,
  )
    where
      ended : replace p new false d ≡ (failed, left_over p new k d)
      ended =
          ap (λ (s : List Outcome). replace p new false (record d { script = s })) script
          ∙ replace-interrupted p new k d

      nothing_left :
          (read_small_versions decode p false (settled (left_over p new k d))).0 ≡ not_exist
      nothing_left =
          rw
            (loop_missing decode p ((p ++ tmp_suffix) ∷ []) none (left_over p new k d)
              (find-left_over p new k d p gone))
            (rw
              (loop_missing decode (p ++ tmp_suffix) [] none (left_over p new k d) (
                find-delete_self (p ++ tmp_suffix)
                  (put (p ++ tmp_suffix) (file (take k new) d.clock) d.nodes)))
              refl)
