-- ===== src/Vault/Store/Replace.antt =====
-- The folder after each call that replace of internal/vault/store.go makes.
use shfm.Common.{
  ℕ, ◌<◌, ◌≡◌, ◌≢◌, refl, sym, ap, ◌∙◌, ◌⊎◌, inl, inr, Bool, true, false, Option, none, some, [],
  ◌∷◌, ◌++◌, Bytes, length, length-append, take, arith, Bool-cases,
}
use shfm.Backend.{Disk, Reply, ok, failed, not_supported, written, read, create, remove, rename}
use shfm.Backend.Nodes.{file, find}
use shfm.Backend.Frame.{
  nodes-stat, nodes-read, find-create_ne, find-create_written, find-create, find-remove_ne,
  find-remove, find-rename_ne, find-rename, find-rename_ok, nodes-rename_unsupported,
}
use shfm.Backend.Rules.{Ensures, Ensures-and_then, Ensures-if_unsupported}
use shfm.Vault.Store.{
  tmp_suffix, bak_suffix, exists, read_small, write_small, remove_if_exists, copy_small,
  rename_or_copy, set_aside, set_aside_if, put_in_place, after_write, replace,
}

append-ne : (p s : Bytes) → 0 < length s → p ++ s ≢ p
append-ne p s h e = omega (arith, ap length e, length-append p s)

append_cancel : (p s t : Bytes) → p ++ s ≡ p ++ t → s ≡ t
append_cancel [] s t e = e
append_cancel (c ∷ p) s t e = append_cancel p s t (cc)

pub tmp-ne : (p : Bytes) → p ++ tmp_suffix ≢ p
tmp-ne p = append-ne p tmp_suffix (omega arith)

bak-ne : (p : Bytes) → p ++ bak_suffix ≢ p
bak-ne p = append-ne p bak_suffix (omega arith)

tmp-ne-bak : (p : Bytes) → p ++ tmp_suffix ≢ p ++ bak_suffix
tmp-ne-bak p e = ground (arith, append_cancel p tmp_suffix bak_suffix e)

-- File `n` of the folder has content `c`.
abbrev pub Holds : Bytes → Bytes → Disk → Type 0
Holds n c d = (t : ℕ) × (find n d.nodes ≡ some (file c t))

keep-Holds :
    (n c : Bytes) (d d' : Disk) → find n d'.nodes ≡ find n d.nodes → Holds n c d → Holds n c d'
keep-Holds n c d d' e (t, h) = (t, e ∙ h)

reply_of-eq-ok : (p c : Bytes) (d : Disk) → (write_small p c d).0 ≡ ok → (create p c d).0 ≡ written
unfolding write_small
reply_of-eq-ok p c d h = ground arith

pub nodes-read_small : (n : Bytes) (d : Disk) → (read_small n d).1.nodes ≡ d.nodes
unfolding read_small
nodes-read_small n d = nodes-read n d

pub nodes-exists : (n : Bytes) (d : Disk) → (exists n d).1.nodes ≡ d.nodes
unfolding exists
nodes-exists n d = nodes-stat n d

pub find-remove_if_exists_ne :
    (n : Bytes) (d : Disk) (k : Bytes)
    → n ≢ k
    → find k (remove_if_exists n d).1.nodes ≡ find k d.nodes
unfolding remove_if_exists
find-remove_if_exists_ne n d k h = elim (Bool-cases (exists n d).0) [
  | inl e ↦ rw e (find-remove_ne n (exists n d).1 k h ∙ ap (find k) (nodes-exists n d))
  | inr e ↦ rw e (ap (find k) (nodes-exists n d))
]

-- What is read is what the folder holds.
read_small-Holds : (n c b : Bytes) (d : Disk) → Holds n c d → (read_small n d).0 ≡ some b → b ≡ c
unfolding read_small read
read_small-Holds n c b d (t, h) e = ground arith

module _ (p old new : Bytes) where
  abbrev pub tmp : Bytes
  tmp = p ++ tmp_suffix

  abbrev bak : Bytes
  bak = p ++ bak_suffix

  -- `p` is gone or cut short, and `p.tmp` is complete.
  abbrev pub InTmp : Disk → Type 0
  InTmp d = Holds tmp new d × ((find p d.nodes ≡ none) ⊎ ((k : ℕ) × Holds p (take k new) d))

  -- What a replacement leaves: the old version, the new one, or the new one in `p.tmp`.
  abbrev pub IsRecoverable : Disk → Type 0
  IsRecoverable d = Holds p old d ⊎ Holds p new d ⊎ InTmp d

  -- The old version stands, or stands aside, with the new one in `p.tmp`.
  abbrev IsPrepared : Disk → Type 0
  IsPrepared d = Holds tmp new d × (Holds p old d ⊎ (find p d.nodes ≡ none))

  prepared-IsRecoverable : (d : Disk) → IsPrepared d → IsRecoverable d
  prepared-IsRecoverable d (h, inl o) = inl o
  prepared-IsRecoverable d (h, inr e) = inr (inr (h, inl e))

  abbrev Placed : Reply → Disk → Type 0
  Placed r d = IsRecoverable d × (r ≡ ok → Holds p new d)

  keep-IsPrepared :
      (d d' : Disk)
      → find tmp d'.nodes ≡ find tmp d.nodes
      → find p d'.nodes ≡ find p d.nodes
      → IsPrepared d
      → IsPrepared d'
  keep-IsPrepared d d' et ep (h, inl o) =
      (keep-Holds tmp new d d' et h, inl (keep-Holds p old d d' ep o))
  keep-IsPrepared d d' et ep (h, inr e) = (keep-Holds tmp new d d' et h, inr (ep ∙ e))

  after_copy :
      (d d' : Disk)
      → IsPrepared d
      → find tmp d'.nodes ≡ find tmp d.nodes
      → (find p d'.nodes ≡ find p d.nodes)
        ⊎ ((k : ℕ) × (find p d'.nodes ≡ some (file (take k new) d.clock)))
      → IsRecoverable d'
  after_copy d d' h et (inl ep) = prepared-IsRecoverable d' (keep-IsPrepared d d' et ep h)
  after_copy d d' h et (inr (k, ep)) =
      inr (inr (keep-Holds tmp new d d' et h.0, inr (k, (d.clock, ep))))

  -- Copying `p.tmp` over `p`.
  copy-Placed : (d : Disk) → IsPrepared d → Ensures Placed (copy_small (some new) tmp p d)
  unfolding copy_small write_small
  copy-Placed d h =
      Ensures-and_then Placed (write_small p new) (remove tmp) d
        (λ good.
          let t : Holds p new (write_small p new d).1 =
            (d.clock, find-create_written p new d (reply_of-eq-ok p new d good)) in
          let k =
            keep-Holds p new (write_small p new d).1 (remove tmp (write_small p new d).1).1
              (find-remove_ne tmp (write_small p new d).1 p (tmp-ne p)) t in
          (inr (inl k), λ e. k))
        (λ bad. (
          after_copy d (write_small p new d).1 h
              (find-create_ne p new d tmp (λ e. tmp-ne p (sym e))) (find-create p new d),
          λ e. absurd (bad e),
        ))

  same_nodes : (d d' : Disk) (n : Bytes) → d'.nodes ≡ d.nodes → find n d'.nodes ≡ find n d.nodes
  same_nodes d d' n e = ap (find n) e

  keep-IsPrepared_nodes : (d d' : Disk) → d'.nodes ≡ d.nodes → IsPrepared d → IsPrepared d'
  keep-IsPrepared_nodes d d' e = keep-IsPrepared d d' (same_nodes d d' tmp e) (same_nodes d d' p e)

  copy_read-Placed :
      (c : Option Bytes)
      → ((b : Bytes) → c ≡ some b → b ≡ new)
      → (d : Disk) → IsPrepared d
      → Ensures Placed (copy_small c tmp p d)
  copy_read-Placed none same d h = unfold copy_small in (prepared-IsRecoverable d h, λ e. cc)
  copy_read-Placed (some b) same d h = rw (same b refl) (copy-Placed d h)

  -- `p.tmp` moved over `p`, by a rename or by a copy.
  move_in-Placed : (d : Disk) → IsPrepared d → Ensures Placed (rename_or_copy tmp p d)
  unfolding rename_or_copy
  move_in-Placed d h =
      let d1 = (rename tmp p d).1 in
      let unmoved = keep-IsPrepared_nodes d d1 in
      Ensures-if_unsupported Placed _ (rename tmp p d).0 d1
        (λ e.
          let h1 = unmoved (nodes-rename_unsupported tmp p d e) h in
          copy_read-Placed (read_small tmp d1).0 (λ b. read_small-Holds tmp new b d1 h1.0)
            (read_small tmp d1).1
            (keep-IsPrepared_nodes d1 (read_small tmp d1).1 (nodes-read_small tmp d1) h1))
        (λ supported. (
          elim (find-rename tmp p d (tmp-ne p)) [
            | inl e ↦ prepared-IsRecoverable d1 (unmoved e h)
            | inr (e, gone) ↦ inr (inl (h.0.0, e ∙ h.0.1))
          ],
          λ e. (h.0.0, find-rename_ok tmp p d e ∙ h.0.1),
        ))

  -- `p` is moved away or removed, or stays.
  old_may_go :
      (d d' : Disk)
      → find tmp d'.nodes ≡ find tmp d.nodes
      → (find p d'.nodes ≡ find p d.nodes) ⊎ (find p d'.nodes ≡ none)
      → IsPrepared d
      → IsPrepared d'
  old_may_go d d' et (inl e) h = keep-IsPrepared d d' et e h
  old_may_go d d' et (inr e) h = (keep-Holds tmp new d d' et h.0, inr e)

  abbrev IsPutAside : Reply → Disk → Type 0
  IsPutAside r d = IsPrepared d

  remove-IsPutAside : (d : Disk) → IsPrepared d → IsPrepared (remove p d).1
  remove-IsPutAside d h =
      old_may_go d (remove p d).1 (find-remove_ne p d tmp (λ e. tmp-ne p (sym e))) (find-remove p d)
        h

  bak-ne-tmp : bak ≢ tmp
  bak-ne-tmp e = tmp-ne-bak p (sym e)

  copy_aside :
      (c : Option Bytes) (d : Disk) → IsPrepared d → Ensures IsPutAside (copy_small c p bak d)
  unfolding copy_small write_small
  copy_aside none d h = h
  copy_aside (some c) d h =
      let d1 = (create bak c d).1 in
      let h1 : IsPrepared d1 =
        keep-IsPrepared d d1 (find-create_ne bak c d tmp bak-ne-tmp)
          (find-create_ne bak c d p (bak-ne p)) h in
      Ensures-and_then IsPutAside (write_small bak c) (remove p) d (λ good. remove-IsPutAside d1 h1)
        (λ bad. h1)

  move_aside : (d : Disk) → IsPrepared d → Ensures IsPutAside (rename_or_copy p bak d)
  unfolding rename_or_copy
  move_aside d h =
      let d1 = (rename p bak d).1 in
      let h1 : IsPrepared d1 =
        old_may_go d d1 (find-rename_ne p bak d tmp (λ e. tmp-ne p (sym e)) bak-ne-tmp)
          (elim (find-rename p bak d (λ e. bak-ne p (sym e))) [
            | inl e ↦ inl (same_nodes d d1 p e)
            | inr (e, gone) ↦ inr gone
          ])
          h in
      Ensures-if_unsupported IsPutAside _ (rename p bak d).0 d1
        (λ e.
          copy_aside (read_small p d1).0 (read_small p d1).1
            (keep-IsPrepared_nodes d1 (read_small p d1).1 (nodes-read_small p d1) h1))
        (λ supported. h1)

  set_aside-IsPutAside :
      (e keep_bak : Bool) (d : Disk)
      → IsPrepared d
      → Ensures IsPutAside (set_aside_if e p keep_bak d)
  unfolding set_aside_if set_aside
  set_aside-IsPutAside false keep_bak d h = h
  set_aside-IsPutAside true false d h = remove-IsPutAside d h
  set_aside-IsPutAside true true d h =
      let d1 = (remove_if_exists bak d).1 in
      let h1 : IsPrepared d1 =
        keep-IsPrepared d d1 (find-remove_if_exists_ne bak d tmp bak-ne-tmp)
          (find-remove_if_exists_ne bak d p (bak-ne p)) h in
      Ensures-and_then IsPutAside (remove_if_exists bak) (rename_or_copy p bak) d
        (λ good. move_aside d1 h1) (λ bad. h1)

  put_in_place-Placed :
      (keep_bak : Bool) (d : Disk) → IsPrepared d → Ensures Placed (put_in_place p keep_bak d)
  unfolding put_in_place
  put_in_place-Placed keep_bak d h =
      let e = (exists p d).0 in
      let d1 = (exists p d).1 in
      let h1 = keep-IsPrepared_nodes d d1 (nodes-exists p d) h in
      let h2 = set_aside-IsPutAside e keep_bak d1 h1 in
      Ensures-and_then Placed (set_aside_if e p keep_bak) (rename_or_copy tmp p) d1
        (λ good. move_in-Placed (set_aside_if e p keep_bak d1).1 h2)
        (λ bad. (prepared-IsRecoverable (set_aside_if e p keep_bak d1).1 h2, λ e. absurd (bad e)))

  cleanup-Holds : (d : Disk) → Holds p old d → Holds p old (remove_if_exists tmp d).1
  cleanup-Holds d o =
      keep-Holds p old d (remove_if_exists tmp d).1 (find-remove_if_exists_ne tmp d p (tmp-ne p)) o

  after_write-Placed :
      (r : Reply) (keep_bak : Bool) (d : Disk)
      → Holds p old d
      → (r ≡ ok → Holds tmp new d)
      → Ensures Placed (after_write r p keep_bak d)
  unfolding after_write
  after_write-Placed ok keep_bak d o t = put_in_place-Placed keep_bak d (t refl, inl o)
  after_write-Placed failed keep_bak d o t = (inl (cleanup-Holds d o), λ e. cc)
  after_write-Placed not_supported keep_bak d o t = (inl (cleanup-Holds d o), λ e. cc)

  -- From the old version, the calls may do what they will: a version stays.
  pub replace-Placed :
      (keep_bak : Bool) (d : Disk) → Holds p old d → Ensures Placed (replace p new keep_bak d)
  unfolding replace write_small
  replace-Placed keep_bak d o =
      let d1 = (create tmp new d).1 in
      after_write-Placed (write_small tmp new d).0 keep_bak d1
        (keep-Holds p old d d1 (find-create_ne tmp new d p (tmp-ne p)) o)
        (λ e. (d.clock, find-create_written tmp new d (reply_of-eq-ok tmp new d e)))
