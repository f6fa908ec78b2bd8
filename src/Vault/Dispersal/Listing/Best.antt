-- ===== src/Vault/Dispersal/Listing/Best.antt =====
-- The generation that list of internal/vault/dispersal.go chooses.
use shfm.Common.{
  ◌≡◌, refl, ap, ◌∙◌, ◌⊎◌, inl, inr, true, false, ◌&&◌, Option, none, some, [], ◌∷◌, arith,
  Bool-cases,
}
use shfm.Vault.Dispersal.Generation.{Generation}
use shfm.Vault.Dispersal.Listing.{Gens, is_readable, is_better, choose, best_loop, best}

-- `g` is one of the generations.
abbrev pub In : Generation → Gens → Type 0
In g [] = ⊥
In g ((k, h) ∷ m) = (h ≡ g) ⊎ In g m

better_irrefl : (g : Generation) → is_better g g ≡ false
unfolding is_better
better_irrefl g = ground arith

better_asym : (g b : Generation) → is_better g b ≡ true → is_better b g ≡ false
unfolding is_better
better_asym g b h = ground arith

-- not being better goes through
not_better_trans :
    (f g b : Generation) → is_better f g ≡ false → is_better g b ≡ false → is_better f b ≡ false
unfolding is_better
not_better_trans f g b h k = ground arith

choose_keeps :
    (g b : Generation)
    → (b' : Generation) × (choose g (some b) ≡ some b') × (is_better b b' ≡ false)
unfolding choose
choose_keeps g b = elim (Bool-cases (is_readable g && is_better g b)) [
  | inl e ↦ (g, rw e refl, better_asym g b (ground arith))
  | inr e ↦ (b, rw e refl, better_irrefl b)
]

choose_takes :
    (g : Generation) (b : Option Generation)
    → is_readable g ≡ true
    → (b' : Generation) × (choose g b ≡ some b') × (is_better g b' ≡ false)
unfolding choose
choose_takes g none r = (g, rw r refl, better_irrefl g)
choose_takes g (some b) r = elim (Bool-cases (is_better g b)) [
  | inl e ↦ (g, rw r (rw e refl), better_irrefl g)
  | inr e ↦ (b, rw r (rw e refl), e)
]

choose_from :
    (g : Generation) (b : Option Generation) (b' : Generation)
    → choose g b ≡ some b'
    → (b ≡ some b') ⊎ ((g ≡ b') × (is_readable b' ≡ true))
unfolding choose
choose_from g none b' h = ground arith
choose_from g (some b) b' h = ground arith

loop_keeps :
    (m : Gens) (o : Option Generation) (b : Generation)
    → o ≡ some b
    → (b' : Generation) × (best_loop m o ≡ some b') × (is_better b b' ≡ false)
unfolding best_loop
loop_keeps [] o b e = (b, e, better_irrefl b)
loop_keeps ((k, g) ∷ m) o b e =
    let (b₁, q, w) = choose_keeps g b in
    let (b', q', w') = loop_keeps m (choose g o) b₁ (ap (choose g) e ∙ q) in
    (b', q', not_better_trans b b₁ b' w w')

loop_max :
    (m : Gens) (o : Option Generation) (g : Generation)
    → In g m
    → is_readable g ≡ true
    → (b' : Generation) × (best_loop m o ≡ some b') × (is_better g b' ≡ false)
unfolding best_loop
loop_max [] o g i r = absurd i
loop_max ((k, h) ∷ m) o g (inr i) r = loop_max m (choose h o) g i r
loop_max ((k, h) ∷ m) o g (inl e) r =
    let (b₁, q, w) = choose_takes g o r in
    let (b', q', w') = loop_keeps m (choose h o) b₁ (ap (λ t. choose t o) e ∙ q) in
    (b', q', not_better_trans g b₁ b' w w')

loop_from :
    (m : Gens) (o : Option Generation) (b : Generation)
    → best_loop m o ≡ some b
    → (o ≡ some b) ⊎ (In b m × (is_readable b ≡ true))
unfolding best_loop
loop_from [] o b h = inl h
loop_from ((k, g) ∷ m) o b h = elim (loop_from m (choose g o) b h) [
  | inr (i, r) ↦ inr (inr i, r)
  | inl e ↦ elim (choose_from g o b e) [ inl q ↦ inl q | inr (q, r) ↦ inr (inl q, r) ]
]

-- In whatever order the generations come: if one of them is readable, so is the chosen one, which
-- is one of them, and none of the readable ones has more shards, or as many and a later date.
pub best_maximal :
    (m : Gens) (g : Generation)
    → In g m
    → is_readable g ≡ true
    → (b : Generation) × (best m ≡ some b)
      × In b m
      × (is_readable b ≡ true)
      × (is_better g b ≡ false)
unfolding best
best_maximal m g i r =
    let (b, q, w) = loop_max m none g i r in
    elim (loop_from m none b q) [ inl e ↦ cc | inr (j, s) ↦ (b, q, j, s, w) ]

-- Only a readable generation is chosen.
pub best-readable : (m : Gens) (b : Generation) → best m ≡ some b → is_readable b ≡ true
unfolding best
best-readable m b h = elim (loop_from m none b h) [ inl e ↦ cc | inr (j, s) ↦ s ]
