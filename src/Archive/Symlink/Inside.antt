-- ===== src/Archive/Symlink/Inside.antt =====
-- Where a link leads, for SafeSymlink of internal/archive/walk.go.
use shfm.Common.{
  ℕ, zero, suc, ◌≡◌, true, false, List, [], ◌∷◌, map, Bytes, Bool-cases, inl, inr, arith, ◌↔◌,
}
use shfm.Archive.Symlink.{
  Component, up, same, into, component_of, climb_loop, split_slash, count_slash, is_refused,
  safe_symlink,
}

-- A folder inside the archive's own, so many levels below it, or a place outside.
pub data Place : Type 0 where
  inside : ℕ → Place
  outside : Place

-- Following one component. A name may itself be a link, to a folder at any depth inside.
pub data Step : Component → Place → Place → Type 0 where
  stay : {p : Place} → Step same p p
  climb : {n : ℕ} → Step up (inside (suc n)) (inside n)
  escape : Step up (inside zero) outside
  descend : {n m : ℕ} → Step into (inside n) (inside m)
  lost : {c : Component} → Step c outside outside

-- Following all of them.
pub data Walk : List Component → Place → Place → Type 0 where
  done : {p : Place} → Walk [] p p
  next :
      {c : Component} {cs : List Component} {p q r : Place}
      → Step c p q
      → Walk cs q r
      → Walk (c ∷ cs) p r

abbrev pub IsInside : Place → Type 0
IsInside (inside n) = Unit
IsInside outside = ⊥

-- after a name, no `..` is left
after_name-inside :
    (cs : List Component) (n m : ℕ) (p : Place)
    → climb_loop cs n false ≡ true
    → Walk cs (inside m) p
    → IsInside p
unfolding climb_loop
after_name-inside [] n m p h done = tt
after_name-inside (up ∷ cs) n m p h w = cc
after_name-inside (same ∷ cs) n m p h (next stay w) = after_name-inside cs n m p h w
after_name-inside (into ∷ cs) n m p h (next (descend {m = k}) w) = after_name-inside cs n k p h w

climb_loop-inside :
    (cs : List Component) (n : ℕ) (p : Place)
    → climb_loop cs n true ≡ true
    → Walk cs (inside n) p
    → IsInside p
unfolding climb_loop
climb_loop-inside [] n p h done = tt
climb_loop-inside (up ∷ cs) zero p h w = cc
climb_loop-inside (up ∷ cs) (suc n) p h (next climb w) = climb_loop-inside cs n p h w
climb_loop-inside (same ∷ cs) n p h (next stay w) = climb_loop-inside cs n p h w
climb_loop-inside (into ∷ cs) n p h (next (descend {m = k}) w) = after_name-inside cs n k p h w

all_lost : (cs : List Component) → Walk cs outside outside
all_lost [] = done
all_lost (c ∷ cs) = next lost (all_lost cs)

-- A name may lead back to the archive's own folder, and a `..` behind it outside.
after_name-outside :
    (cs : List Component) (n : ℕ) → climb_loop cs n false ≡ false → Walk cs (inside zero) outside
unfolding climb_loop
after_name-outside [] n h = cc
after_name-outside (up ∷ cs) n h = next escape (all_lost cs)
after_name-outside (same ∷ cs) n h = next stay (after_name-outside cs n h)
after_name-outside (into ∷ cs) n h = next descend (after_name-outside cs n h)

climb_loop-outside :
    (cs : List Component) (n : ℕ) → climb_loop cs n true ≡ false → Walk cs (inside n) outside
unfolding climb_loop
climb_loop-outside [] n h = cc
climb_loop-outside (up ∷ cs) zero h = next escape (all_lost cs)
climb_loop-outside (up ∷ cs) (suc n) h = next climb (climb_loop-outside cs n h)
climb_loop-outside (same ∷ cs) n h = next stay (climb_loop-outside cs n h)
climb_loop-outside (into ∷ cs) n h = next descend (after_name-outside cs n h)

-- Where the target may lead to, from the folder of the link.
abbrev pub LeadsTo : Bytes → Bytes → Place → Type 0
LeadsTo name target p = Walk (map component_of (split_slash target)) (inside (count_slash name)) p

-- A target that is not empty, not absolute and has no zero byte is safe exactly if no way to follow
-- it from the link's folder leads outside, whatever folders inside the names on it lead to.
pub safe_symlink-IsInside :
    (name target : Bytes)
    → is_refused target ≡ false
    → (safe_symlink name target ≡ true) ↔ ((p : Place) → LeadsTo name target p → IsInside p)
unfolding safe_symlink
safe_symlink-IsInside name target r =
    let cs = map component_of (split_slash target) in
    let n = count_slash name in
    (
      (λ h p w. climb_loop-inside cs n p (ground arith) w),
      (λ all. elim (Bool-cases (climb_loop cs n true)) [
        | inl e ↦ rw r e
        | inr e ↦ absurd (all outside (climb_loop-outside cs n e))
      ]),
    )
