-- ===== src/Drives/Mounts/Longest.antt =====
-- Which mount MountOf of internal/drives/mountid.go chooses.
use mathlib.Core.Path.{subst}
use shfm.Common.{
  ℕ, ◌≤◌, ◌<◌, ◌≡◌, refl, sym, ap, ◌∙◌, ◌⊎◌, inl, inr, true, false, none, some, List, [], ◌∷◌, ◌++◌,
  Bytes, length, leb, All, arith, Bool-cases,
}
use shfm.Drives.Mounts.{Mount, is_under, pick_mount, mount_loop, with_uuid, mount_of}

module _ (path : Bytes) where
  -- `mt` holds the path with a point of at most `n` bytes, or does not hold it.
  abbrev pub IsAtMost : ℕ → Mount → Type 0
  IsAtMost n mt = is_under path mt.mount_point ≡ true → length mt.mount_point ≤ n

  abbrev pub IsBelow : ℕ → Mount → Type 0
  IsBelow n mt = is_under path mt.mount_point ≡ true → length mt.mount_point < n

  -- `b` is the last of the deepest mounts that hold the path.
  abbrev pub IsLastDeepest : List Mount → Mount → Type 0
  IsLastDeepest ms b =
      (before : List Mount) × (after : List Mount) × (ms ≡ before ++ b ∷ after)
      × (is_under path b.mount_point ≡ true)
      × All (IsAtMost (length b.mount_point)) before
      × All (IsBelow (length b.mount_point)) after

  abbrev Chosen : List Mount → Mount → Mount → Type 0
  Chosen ms b b' =
      ((b' ≡ b) × All (IsBelow (length b.mount_point)) ms)
      ⊎ (IsLastDeepest ms b' × (length b.mount_point ≤ length b'.mount_point))

  further :
      (mt b' : Mount) (ms : List Mount)
      → IsAtMost (length b'.mount_point) mt
      → IsLastDeepest ms b'
      → IsLastDeepest (mt ∷ ms) b'
  further mt b' ms h (before, after, e, u, x, y) =
      (mt ∷ before, after, ap (λ t. mt ∷ t) e, u, (h, x), y)

  skip_some :
      (mt b b' : Mount) (ms : List Mount)
      → IsBelow (length b.mount_point) mt
      → Chosen ms b b'
      → Chosen (mt ∷ ms) b b'
  skip_some mt b b' ms h (inl (e, a)) = inl (e, (h, a))
  skip_some mt b b' ms h (inr (l, n)) =
      inr (further mt b' ms (λ u. let k = h u in omega arith) l, n)

  take_it :
      (mt b' : Mount) (ms : List Mount)
      → is_under path mt.mount_point ≡ true
      → Chosen ms mt b'
      → IsLastDeepest (mt ∷ ms) b' × (length mt.mount_point ≤ length b'.mount_point)
  take_it mt b' ms u (inl (e, a)) =
      subst (λ x. IsLastDeepest (mt ∷ ms) x × (length mt.mount_point ≤ length x.mount_point))
        (sym e) (([], ms, refl, u, tt, a), omega arith)
  take_it mt b' ms u (inr (l, n)) = (further mt b' ms (λ _. n) l, n)

  loop_some :
      (ms : List Mount) (b : Mount)
      → (b' : Mount) × (mount_loop path ms (some b) ≡ some b') × Chosen ms b b'
  unfolding mount_loop pick_mount
  loop_some [] b = (b, refl, inl (refl, tt))
  loop_some (mt ∷ ms) b = elim (Bool-cases (is_under path mt.mount_point)) [
    | inr out ↦
        let (b', e, c) = loop_some ms b in
        (b', rw out e, skip_some mt b b' ms (λ u. let f : true ≡ false = sym u ∙ out in cc f) c)
    | inl u ↦ elim (Bool-cases (leb (length b.mount_point) (length mt.mount_point))) [
      | inl deep ↦
          let (b', e, c) = loop_some ms mt in
          let (l, n) = take_it mt b' ms u c in (b', rw u (rw deep e), inr (l, ground arith))
      | inr shallow ↦
          let (b', e, c) = loop_some ms b in
          (b', rw u (rw shallow e), skip_some mt b b' ms (λ _. ground arith) c)
    ]
  ]

  loop_none :
      (ms : List Mount)
      → ((mount_loop path ms none ≡ none) × All (λ mt. is_under path mt.mount_point ≡ false) ms)
        ⊎ ((b : Mount) × (mount_loop path ms none ≡ some b) × IsLastDeepest ms b)
  unfolding mount_loop pick_mount
  loop_none [] = inl (refl, tt)
  loop_none (mt ∷ ms) = elim (Bool-cases (is_under path mt.mount_point)) [
    | inr out ↦ elim (loop_none ms) [
      | inl (e, a) ↦ inl (rw out e, (out, a))
      | inr (b, e, l) ↦
          inr (b, rw out e, further mt b ms (λ u. let f : true ≡ false = sym u ∙ out in cc f) l)
    ]
    | inl u ↦ let (b', e, c) = loop_some ms mt in inr (b', rw u e, (take_it mt b' ms u c).0)
  ]

-- A path has no mount exactly if no mount point holds it. Otherwise its mount is, but for the UUID
-- filled in, one of the mounts: none before it in the list that holds the path is deeper, and each
-- after it that does is less deep.
pub mount_of-IsLastDeepest :
    (mounts : List Mount) (uuid_of : Bytes → Bytes) (path : Bytes)
    → ((mount_of mounts uuid_of path ≡ none)
        × All (λ mt. is_under path mt.mount_point ≡ false) mounts)
      ⊎ ((b : Mount) × (mount_of mounts uuid_of path ≡ some (record b { uuid = uuid_of b.device }))
          × IsLastDeepest path mounts b)
unfolding mount_of with_uuid
mount_of-IsLastDeepest mounts uuid_of path = elim (loop_none path mounts) [
  | inl (e, a) ↦ inl (ap (with_uuid mounts uuid_of) e, a)
  | inr (b, e, l) ↦ inr (b, ap (with_uuid mounts uuid_of) e, l)
]
