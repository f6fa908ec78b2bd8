-- ===== src/Vault/Dispersal/Xor/Laws.antt =====
-- The exclusive or of byte strings, for xorReader of internal/vault/dispersal.go.
use Prim.Native.Nat.{bit_xor}
use shfm.Common.{
  ℕ, zero, suc, ◌≤◌, ◌≡◌, refl, sym, ap, ◌∙◌, [], ◌∷◌, ◌++◌, Bytes, length, take, drop, arith,
  take-append-drop,
}
use shfm.Common.Bits.{bit_xor_cancel, bit_xor_cancel_left}
use shfm.Vault.Dispersal.Xor.{xor_onto}

pub length-xor_onto : (p b : Bytes) → length (xor_onto p b) ≡ length p
unfolding xor_onto
length-xor_onto [] b = refl
length-xor_onto (x ∷ p) [] = refl
length-xor_onto (x ∷ p) (y ∷ b) = ap suc (length-xor_onto p b)

pub xor_onto-nil : (p : Bytes) → xor_onto p [] ≡ p
unfolding xor_onto
xor_onto-nil [] = refl
xor_onto-nil (x ∷ p) = refl

-- C xor B is A.
pub xor_onto_cancel : (p b : Bytes) → xor_onto (xor_onto p b) b ≡ p
unfolding xor_onto
xor_onto_cancel [] b = refl
xor_onto_cancel (x ∷ p) [] = refl
xor_onto_cancel (x ∷ p) (y ∷ b) = ground (arith, bit_xor_cancel x y, xor_onto_cancel p b)

-- A xor C, cut to the length of B, is B.
pub xor_onto_cancel_left :
    (p b : Bytes) → length b ≤ length p → xor_onto (take (length b) p) (xor_onto p b) ≡ b
unfolding xor_onto
xor_onto_cancel_left [] [] h = refl
xor_onto_cancel_left [] (y ∷ b) h = absurd (omega arith)
xor_onto_cancel_left (x ∷ p) [] h = refl
xor_onto_cancel_left (x ∷ p) (y ∷ b) h =
    ground (arith, bit_xor_cancel_left x y, xor_onto_cancel_left p b (omega arith))

-- What one piece and the rest give, put together.
pub xor_onto-split :
    (n : ℕ) (p b : Bytes)
    → xor_onto p b ≡ xor_onto (take n p) (take n b) ++ xor_onto (drop n p) (drop n b)
unfolding xor_onto
xor_onto-split zero p b = refl
xor_onto-split (suc n) [] b = refl
xor_onto-split (suc n) (x ∷ p) [] =
    ap (λ t. x ∷ t)
      (sym (take-append-drop n p) ∙ ap (λ t. take n p ++ t) (sym (xor_onto-nil (drop n p))))
xor_onto-split (suc n) (x ∷ p) (y ∷ b) = ap (λ t. bit_xor x y ∷ t) (xor_onto-split n p b)
