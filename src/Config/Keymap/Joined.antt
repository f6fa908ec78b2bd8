-- ===== src/Config/Keymap/Joined.antt =====
-- Keys cut at their plus signs and put together, for NormalizeKey of internal/config/keymap.go.
use shfm.Common.{
  ◌≡◌, ◌≢◌, refl, sym, ap, ◌∙◌, true, false, List, [], ◌∷◌, ◌++◌, Bytes, codes, ◌==◌, bytes_eq,
  bytes_eq_iff, All, All-append, Bool-cases, inl, inr, arith, ◌⊎◌,
}
use shfm.Common.Split.{
  split_on, split-append, split-free, split-whole, last_of, is_free, is_free-All,
}
use shfm.Config.Keymap.{
  plus, modifier_order, is_among, all_but_last, known_mods, other_mods, sorted_mods, join_key,
  is_single, contains, normalize_key,
}
use shfm.Config.Keymap.Normal.{sorted-sorted, among-sorted}

abbrev IsPart : Bytes → Type 0
IsPart w = All (λ c. c ≢ plus) w

split-join_key :
    (ms : List Bytes) (key : Bytes)
    → All IsPart ms
    → IsPart key
    → split_on plus (join_key ms key) ≡ ms ++ key ∷ []
unfolding join_key
split-join_key [] key h k = split-whole plus key k
split-join_key (m ∷ ms) key h k =
    split-append plus m (join_key ms key) h.0 ∙ ap (λ t. m ∷ t) (split-join_key ms key h.1 k)

last-append : (ms : List Bytes) (key : Bytes) → last_of (ms ++ key ∷ []) ≡ key
last-append [] key = refl
last-append (m ∷ []) key = refl
last-append (m ∷ n ∷ ms) key = last-append (n ∷ ms) key

all_but_last-append : (ms : List Bytes) (key : Bytes) → all_but_last (ms ++ key ∷ []) ≡ ms
unfolding all_but_last
all_but_last-append [] key = refl
all_but_last-append (m ∷ []) key = refl
all_but_last-append (m ∷ n ∷ ms) key = ap (λ t. m ∷ t) (all_but_last-append (n ∷ ms) key)

all_but_last-AllParts : (ws : List Bytes) → All IsPart ws → All IsPart (all_but_last ws)
unfolding all_but_last
all_but_last-AllParts [] h = tt
all_but_last-AllParts (w ∷ []) h = tt
all_but_last-AllParts (w ∷ v ∷ ws) h = (h.0, all_but_last-AllParts (v ∷ ws) h.1)

last-IsPart : (ws : List Bytes) → All IsPart ws → IsPart (last_of ws)
last-IsPart [] h = tt
last-IsPart (w ∷ []) h = h.0
last-IsPart (w ∷ v ∷ ws) h = last-IsPart (v ∷ ws) h.1

known-parts : (order mods : List Bytes) → All IsPart order → All IsPart (known_mods order mods)
unfolding known_mods
known-parts [] mods h = tt
known-parts (want ∷ order) mods h = elim (Bool-cases (is_among want mods)) [
  | inl e ↦ rw e (h.0, known-parts order mods h.1)
  | inr e ↦ rw e (known-parts order mods h.1)
]

other-parts : (order mods : List Bytes) → All IsPart mods → All IsPart (other_mods order mods)
unfolding other_mods
other-parts order [] h = tt
other-parts order (m ∷ mods) h = elim (Bool-cases (is_among m order)) [
  | inl e ↦ rw e (other-parts order mods h.1)
  | inr e ↦ rw e (h.0, other-parts order mods h.1)
]

order-parts : All IsPart modifier_order
unfolding is_free
order-parts =
    let part = is_free-All plus in
    (
      part (codes "ctrl") refl,
      (
        part (codes "alt") refl,
        (
          part (codes "shift") refl,
          (part (codes "meta") refl, (part (codes "hyper") refl, (part (codes "super") refl, tt))),
        ),
      ),
    )

sorted-parts : (mods : List Bytes) → All IsPart mods → All IsPart (sorted_mods mods)
unfolding sorted_mods
sorted-parts mods h =
    All-append IsPart (known_mods modifier_order mods) (other_mods modifier_order mods)
      (known-parts modifier_order mods order-parts) (other-parts modifier_order mods h)

sorted-cons : (m : Bytes) (mods : List Bytes) → sorted_mods (m ∷ mods) ≢ []
unfolding is_among
sorted-cons m mods h = absurd (
    no_member (sym (ap (is_among m) h) ∙ among-sorted m (m ∷ mods))
      (ground (arith, bytes_eq_iff m m)))
  where
    no_member : is_among m [] ≡ is_among m (m ∷ mods) → is_among m (m ∷ mods) ≡ true → ⊥
    no_member e f = ground arith

contains-middle : (w s : Bytes) → contains plus (w ++ plus ∷ s) ≡ true
unfolding contains
contains-middle [] s = refl
contains-middle (c ∷ w) s = ground (arith, contains-middle w s)

-- A key with a plus sign has a part in front of it.
split-nonempty : (s : Bytes) → (w : Bytes) × (ws : List Bytes) × (split_on plus s ≡ w ∷ ws)
unfolding split_on
split-nonempty [] = ([], [], refl)
split-nonempty (c ∷ s) =
    let (w, ws, e) = split-nonempty s in
    elim (Bool-cases (c == plus)) [
      | inl q ↦ rw q ([], split_on plus s, refl)
      | inr q ↦ rw q (rw e (c ∷ w, ws, refl))
    ]

split-two :
    (s : Bytes)
    → contains plus s ≡ true
    → (w : Bytes) × (v : Bytes) × (ws : List Bytes) × (split_on plus s ≡ w ∷ v ∷ ws)
unfolding split_on contains
split-two [] h = cc
split-two (c ∷ s) h = elim (Bool-cases (c == plus)) [
  | inl q ↦ let (w, ws, e) = split-nonempty s in rw q (rw e ([], w, ws, refl))
  | inr q ↦ let (w, v, ws, e) = split-two s (ground arith) in rw q (rw e (c ∷ w, v, ws, refl))
]

-- A key in its normal form, of at least two parts.
module _ (m : Bytes) (ms : List Bytes) (key : Bytes) where
  abbrev joined : Bytes
  joined = join_key (m ∷ ms) key

  no_space : bytes_eq joined (codes " ") ≡ false
  unfolding join_key contains
  no_space = differ joined (codes " ") (contains-middle m (join_key ms key)) refl
    where
      differ :
          (s t : Bytes) → contains plus s ≡ true → contains plus t ≡ false → bytes_eq s t ≡ false
      differ s t h k = ground (arith, bytes_eq_iff s t, ap (contains plus) {x = s} {y = t})

  normalize-joined :
      All IsPart (m ∷ ms)
      → IsPart key
      → sorted_mods (m ∷ ms) ≡ m ∷ ms
      → normalize_key joined ≡ joined
  unfolding normalize_key
  normalize-joined h k fixed = rw no_space (elim (Bool-cases (is_single joined)) [
    | inl e ↦ rw e refl
    | inr e ↦ rw e (
        rw (split-join_key (m ∷ ms) key h k)
          (rw (all_but_last-append (m ∷ ms) key) (rw (last-append (m ∷ ms) key) (rw fixed refl))))
  ])

normalize-sorted :
    (S : List Bytes) (key : Bytes)
    → S ≢ []
    → All IsPart S
    → IsPart key
    → sorted_mods S ≡ S
    → normalize_key (join_key S key) ≡ join_key S key
normalize-sorted [] key ne h k fixed = absurd (ne refl)
normalize-sorted (m ∷ ms) key ne h k fixed = normalize-joined m ms key h k fixed

normalize-split :
    (k : Bytes)
    → contains plus k ≡ true
    → let S = sorted_mods (all_but_last (split_on plus k)) in
      let key = last_of (split_on plus k) in normalize_key (join_key S key) ≡ join_key S key
unfolding all_but_last
normalize-split k h =
    let parts = split_on plus k in
    let free = split-free plus k in
    let (w, v, ws, e) = split-two k h in
    normalize-sorted (sorted_mods (all_but_last parts)) (last_of parts)
      (λ q.
        sorted-cons w (all_but_last (v ∷ ws)) (sym (ap (λ t. sorted_mods (all_but_last t)) e) ∙ q))
      (sorted-parts (all_but_last parts) (all_but_last-AllParts parts free))
      (last-IsPart parts free) (sorted-sorted (all_but_last parts))

abbrev whole : Bytes → Bytes
whole k = join_key (sorted_mods (all_but_last (split_on plus k))) (last_of (split_on plus k))

not_single : (k : Bytes) → is_single k ≡ false → contains plus k ≡ true
unfolding is_single
not_single k h = ground arith

normalize_key-cases :
    (k : Bytes)
    → (normalize_key k ≡ codes "space")
      ⊎ (normalize_key k ≡ k)
      ⊎ ((contains plus k ≡ true) × (normalize_key k ≡ whole k))
unfolding normalize_key
normalize_key-cases k = elim (Bool-cases (bytes_eq k (codes " "))) [
  | inl e ↦ inl (rw e refl)
  | inr e ↦ elim (Bool-cases (is_single k)) [
    | inl f ↦ inr (inl (rw e (rw f refl)))
    | inr f ↦ inr (inr (not_single k f, rw e (rw f refl)))
  ]
]

space_again : normalize_key (codes "space") ≡ codes "space"
unfolding normalize_key bytes_eq is_single contains
space_again = refl

-- A normal form is its own: however often keys are normalised, they are spelled one way.
normalize_key_idempotent : (k : Bytes) → normalize_key (normalize_key k) ≡ normalize_key k
normalize_key_idempotent k = elim (normalize_key-cases k) [
  | inl e ↦ ap normalize_key e ∙ (space_again ∙ sym e)
  | inr (inl e) ↦ ap normalize_key e
  | inr (inr (h, e)) ↦ ap normalize_key e ∙ (normalize-split k h ∙ sym e)
]
