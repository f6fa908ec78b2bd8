-- ===== src/Config/Keymap/Normal.antt =====
-- Normal forms of keys, for NormalizeKey of internal/config/keymap.go.
use shfm.Common.{
  ◌≡◌, refl, ap, ◌∙◌, true, ◌&&◌, ◌||◌, not, List, [], ◌∷◌, ◌++◌, Bytes, bytes_eq, bytes_eq_iff,
  All, Bool-cases, inl, inr, arith,
}
use shfm.Config.Keymap.{modifier_order, is_among, known_mods, other_mods, sorted_mods}

among-append :
    (w : Bytes) (ms ns : List Bytes) → is_among w (ms ++ ns) ≡ (is_among w ms || is_among w ns)
unfolding is_among
among-append w [] ns = refl
among-append w (m ∷ ms) ns = ground (arith, among-append w ms ns)

-- One word is another's, in a list.
among-cons : (w m : Bytes) (ms : List Bytes) → is_among w (m ∷ ms) ≡ (bytes_eq m w || is_among w ms)
unfolding is_among
among-cons w m ms = refl

among-eq : (w m : Bytes) (ms : List Bytes) → bytes_eq m w ≡ true → is_among m ms ≡ is_among w ms
among-eq w m ms h = ap (λ v. is_among v ms) ((bytes_eq_iff m w).0 h)

among-known :
    (w : Bytes) (order mods : List Bytes)
    → is_among w (known_mods order mods) ≡ (is_among w order && is_among w mods)
unfolding known_mods is_among
among-known w [] mods = refl
among-known w (want ∷ order) mods = ground (arith, among-known w order mods, among-eq w want mods)

among-other :
    (w : Bytes) (order mods : List Bytes)
    → is_among w (other_mods order mods) ≡ (not (is_among w order) && is_among w mods)
unfolding other_mods is_among
among-other w order [] = ground arith
among-other w order (m ∷ mods) = ground (arith, among-other w order mods, among-eq w m order)

pub among-sorted : (w : Bytes) (mods : List Bytes) → is_among w (sorted_mods mods) ≡ is_among w mods
unfolding sorted_mods
among-sorted w mods = ground (
  arith,
  among-append w (known_mods modifier_order mods) (other_mods modifier_order mods),
  among-known w modifier_order mods,
  among-other w modifier_order mods,
)

known-ext :
    (order ms ns : List Bytes)
    → ((w : Bytes) → is_among w ms ≡ is_among w ns)
    → known_mods order ms ≡ known_mods order ns
unfolding known_mods
known-ext [] ms ns h = refl
known-ext (want ∷ order) ms ns h = rw (h want) (rw (known-ext order ms ns h) refl)

other-append :
    (order ms ns : List Bytes)
    → other_mods order (ms ++ ns) ≡ other_mods order ms ++ other_mods order ns
unfolding other_mods
other-append order [] ns = refl
other-append order (m ∷ ms) ns = ground (arith, other-append order ms ns)

other-none :
    (order ms : List Bytes) → All (λ m. is_among m order ≡ true) ms → other_mods order ms ≡ []
unfolding other_mods
other-none order [] h = refl
other-none order (m ∷ ms) h = rw h.0 (other-none order ms h.1)

other-other : (order ms : List Bytes) → other_mods order (other_mods order ms) ≡ other_mods order ms
unfolding other_mods
other-other order [] = refl
other-other order (m ∷ ms) = elim (Bool-cases (is_among m order)) [
  | inl e ↦ rw e (other-other order ms)
  | inr e ↦ rw e (rw e (ap (λ t. m ∷ t) (other-other order ms)))
]

among-later :
    (want : Bytes) (order ms : List Bytes)
    → All (λ m. is_among m order ≡ true) ms
    → All (λ m. is_among m (want ∷ order) ≡ true) ms
unfolding is_among
among-later want order [] h = tt
among-later want order (m ∷ ms) h = (ground arith, among-later want order ms h.1)

known-among : (order mods : List Bytes) → All (λ m. is_among m order ≡ true) (known_mods order mods)
unfolding known_mods is_among
known-among [] mods = tt
known-among (want ∷ order) mods =
    let later = among-later want order (known_mods order mods) (known-among order mods) in
    elim (Bool-cases (is_among want mods)) [
      | inl e ↦ rw e (ground (arith, bytes_eq_iff want want), later)
      | inr e ↦ rw e later
    ]

pub sorted-sorted : (mods : List Bytes) → sorted_mods (sorted_mods mods) ≡ sorted_mods mods
unfolding sorted_mods
sorted-sorted mods =
    let known = known_mods modifier_order mods in
    let other = other_mods modifier_order mods in
    rw (known-ext modifier_order (known ++ other) mods (λ w. among-sorted w mods)) (
      ap (λ t. known ++ t)
        (other-append modifier_order known other
          ∙ (rw (other-none modifier_order known (known-among modifier_order mods))
              (other-other modifier_order mods))))
