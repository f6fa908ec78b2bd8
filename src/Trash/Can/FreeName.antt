-- ===== src/Trash/Can/FreeName.antt =====
-- The search for a free name in internal/trash/trash.go.
use shfm.Common.{
  ℕ, zero, suc, ◌+◌, ◌≤◌, ◌<◌, ◌≡◌, ◌≢◌, refl, sym, ap, ◌∙◌, true, false, Option, none, some, List,
  [], ◌∷◌, ◌++◌, Bytes, length, is_some, arith, Bool-cases, inl, inr, bytes_eq-ne,
}
use shfm.Common.Dict.{lookup, erase, lookup-erase}
use shfm.Common.Decimal.{decimal, decimal_injective}
use shfm.Trash.Can.{Content, numbered_id, id_loop, free_id}

append_cancel : (w s t : Bytes) → w ++ s ≡ w ++ t → s ≡ t
append_cancel [] s t h = h
append_cancel (c ∷ w) s t h = append_cancel w s t cc

tail_eq : {c d : ℕ} {s t : Bytes} → c ∷ s ≡ d ∷ t → s ≡ t
tail_eq h = cc

numbered_id_injective : (base : Bytes) (n m : ℕ) → numbered_id base n ≡ numbered_id base m → n ≡ m
unfolding numbered_id
numbered_id_injective base n m h =
    decimal_injective n m (tail_eq (append_cancel base (b'.' ∷ decimal n) (b'.' ∷ decimal m) h))

append-cons-ne_self : (w s : Bytes) (c : ℕ) → w ++ c ∷ s ≢ w
append-cons-ne_self [] s c h = cc
append-cons-ne_self (x ∷ w) s c h = append-cons-ne_self w s c cc

numbered_id-ne : (base : Bytes) (n : ℕ) → numbered_id base n ≢ base
unfolding numbered_id
numbered_id-ne base n = append-cons-ne_self base (decimal n) b'.'

module _ {V : Type 0} where
  length-erase : (k : Bytes) (m : List (Bytes × V)) → length (erase k m) ≤ length m
  unfolding erase
  length-erase k [] = omega arith
  length-erase k ((j, v) ∷ m) = ground (arith, length-erase k m)

  length-erase_found :
      (k : Bytes) (m : List (Bytes × V))
      → is_some (lookup k m) ≡ true
      → length (erase k m) < length m
  unfolding erase lookup
  length-erase_found k [] h = cc
  length-erase_found k ((j, v) ∷ m) h = ground (arith, length-erase k m, length-erase_found k m)

  lookup-erase_ne : (k j : Bytes) (m : List (Bytes × V)) → k ≢ j → lookup j (erase k m) ≡ lookup j m
  lookup-erase_ne k j m h = rw (lookup-erase k j m) (rw (bytes_eq-ne k j h) refl)

pub not_some : {V : Type 0} (o : Option V) → is_some o ≡ false → o ≡ none
not_some none h = refl
not_some (some v) h = cc

-- `left` is what the names tried so far leave of the names taken.
id_loop_free :
    (fuel : ℕ) (files left : List (Bytes × Content)) (base id : Bytes) (suffix : ℕ)
    → length left < fuel
    → lookup id left ≡ lookup id files
    → ((k : ℕ)
        → suffix ≤ k
        → (numbered_id base k ≢ id)
          × (lookup (numbered_id base k) left ≡ lookup (numbered_id base k) files))
    → lookup (id_loop fuel files base id suffix) files ≡ none
unfolding id_loop
id_loop_free zero files left base id suffix h e later = absurd (omega arith)
id_loop_free (suc fuel) files left base id suffix h e later =
    elim (Bool-cases (is_some (lookup id files))) [
      | inl t ↦ rw t (
          id_loop_free fuel files (erase id left) base (numbered_id base suffix) (suffix + 1)
            (omega (arith, length-erase_found id left (ap is_some e ∙ t)))
            (lookup-erase_ne id (numbered_id base suffix) left
                (λ q. (later suffix (omega arith)).0 (sym q))
              ∙ (later suffix (omega arith)).1)
            (λ k le. (
              (λ q. omega (arith, numbered_id_injective base k suffix q, le)),
              lookup-erase_ne id (numbered_id base k) left (λ q. (later k (omega arith)).0 (sym q))
                  ∙ (later k (omega arith)).1,
            )))
      | inr f ↦ rw f (not_some (lookup id files) f)
    ]

-- The search ends, and its name is not in files/.
pub free_id_free :
    (files : List (Bytes × Content)) (base : Bytes) → lookup (free_id files base) files ≡ none
unfolding free_id
free_id_free files base =
    id_loop_free (suc (length files)) files files base base 1 (omega arith) refl
      (λ k le. (numbered_id-ne base k, refl))
