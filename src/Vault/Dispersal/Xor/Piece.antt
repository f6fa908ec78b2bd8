-- ===== src/Vault/Dispersal/Xor/Piece.antt =====
-- One Read of an xorReader (internal/vault/dispersal.go).
use Prim.Native.Nat.{bit_xor}
use mathlib.Core.Path.{subst}
use native.Mathlib.Decide.{dec_lt}
use shfm.Common.{
  ℕ, zero, suc, ◌-◌, ◌≤◌, ◌<◌, ◌≡◌, refl, sym, ap, ◌∙◌, ◌⊎◌, inl, inr, Bool, true, false, ◌&&◌,
  none, some, [], ◌∷◌, ◌++◌, Bytes, length, take, drop, min, arith, length-take, length-drop,
  drop_all, take-split, sub_zero, suc_sub_suc, take-nil, drop-nil, Bool-cases, ◌==◌, ltb,
  if◌then◌else◌,
}
use shfm.Vault.Dispersal.Xor.{
  xor_onto, eof, ReadResult, XorReader, xor_read, xor_read_left, xor_read_a, xor_read_b,
}
use shfm.Vault.Dispersal.Xor.Laws.{xor_onto-nil, length-xor_onto}

-- One `Read`: the end, or a first piece that is not empty, after which the rest is to come.
abbrev pub Progress : {R : Type 0} → (R → Bytes → Type 0) → ReadResult × R → Bytes → Type 0
Progress {R} P rr out =
    ((out ≡ []) × (rr.0 ≡ ([], some eof)))
    ⊎ ((p : Bytes) × (rest : Bytes) × (rr.0 ≡ (p, none))
        × (out ≡ p ++ rest)
        × (0 < length p)
        × P rr.1 rest)

-- What the second reader still counts for: zeros are left out, and so is all after its end.
abbrev mask : XorReader → Bytes
mask x = if x.b_eof then [] else x.b

-- `out` is what is left to give: the first reader lasts, and the second may be shorter.
pub XorGives : XorReader → Bytes → Type 0
XorGives x out = (x.left ≤ length x.a) × (out ≡ xor_onto (take x.left x.a) (mask x))

xor_piece :
    (n l : ℕ) (a b : Bytes)
    → n ≤ l
    → xor_onto (take l a) b
      ≡ xor_onto (take n a) (take n b) ++ xor_onto (take (l - n) (drop n a)) (drop n b)
unfolding xor_onto
xor_piece zero l a b h = rw (sub_zero l)
xor_piece (suc n) zero a b h = absurd (omega arith)
xor_piece (suc n) (suc l) [] b h =
    sym (ap (λ t. xor_onto t (drop (suc n) b)) (take-nil (suc l - suc n)))
xor_piece (suc n) (suc l) (x ∷ a) [] h = rw (suc_sub_suc l n) (
    ap (λ t. x ∷ t)
      (take-split n l a (omega arith)
        ∙ ap (λ t. take n a ++ t) (sym (xor_onto-nil (take (l - n) (drop n a))))))
xor_piece (suc n) (suc l) (x ∷ a) (y ∷ b) h =
    rw (suc_sub_suc l n) (ap (λ t. bit_xor x y ∷ t) (xor_piece n l a b (omega arith)))

short_mask : (m : ℕ) (b : Bytes) → (if ltb (length b) m then [] else drop m b) ≡ drop m b
short_mask m b = elim (Bool-cases (ltb (length b) m)) [
  | inl e ↦ rw e (sym (drop_all m b (ground arith)))
  | inr e ↦ rw e refl
]

xor_onto-nil_left : (b : Bytes) → xor_onto [] b ≡ []
unfolding xor_onto
xor_onto-nil_left b = refl

-- the mask after a piece of `m` bytes
mask_step :
    (e : Bool) (m : ℕ) (x : XorReader) (p : Bytes)
    → x.b_eof ≡ e
    → mask (xor_read_b e p m x).1 ≡ drop m (mask x)
unfolding xor_read_b
mask_step true m x p q = rw q (sym (drop-nil m))
mask_step false m x p q = rw q (short_mask m x.b)

piece-value :
    (e : Bool) (m : ℕ) (x : XorReader)
    → x.b_eof ≡ e
    → (xor_read_b e (take m x.a) m x).0 ≡ (xor_onto (take m x.a) (take m (mask x)), none)
unfolding xor_read_b
piece-value true m x q = rw q (rw (take-nil m) (rw (xor_onto-nil (take m x.a)) refl))
piece-value false m x q = rw q refl

piece-fields :
    (e : Bool) (p : Bytes) (m : ℕ) (x : XorReader)
    → ((xor_read_b e p m x).1.a ≡ drop m x.a) × ((xor_read_b e p m x).1.left ≡ x.left - m)
unfolding xor_read_b
piece-fields true p m x = (refl, refl)
piece-fields false p m x = (refl, refl)

piece-Progress :
    (m : ℕ) (x : XorReader) (out : Bytes)
    → 0 < m
    → m ≤ x.left
    → XorGives x out
    → Progress XorGives (xor_read_b x.b_eof (take m x.a) m x) out
unfolding XorGives
piece-Progress m x out pos le (fits, g) =
    let r = xor_read_b x.b_eof (take m x.a) m x in
    let (fa, fl) = piece-fields x.b_eof (take m x.a) m x in
    let fm = mask_step x.b_eof m x (take m x.a) refl in
    inr (
      xor_onto (take m x.a) (take m (mask x)),
      xor_onto (take (x.left - m) (drop m x.a)) (drop m (mask x)),
      piece-value x.b_eof m x refl,
      g ∙ xor_piece m x.left x.a (mask x) le,
      omega (arith, length-xor_onto (take m x.a) (take m (mask x)), length-take m x.a),
      (
        omega (arith, fl, ap length fa, length-drop m x.a),
        λ i. xor_onto (take (sym fl i) (sym fa i)) (sym fm i),
      ),
    )

xor_read_step :
    (k : ℕ) (x : XorReader)
    → 0 < k
    → 0 < x.left
    → x.left ≤ length x.a
    → xor_read k x ≡ xor_read_b x.b_eof (take (min k x.left) x.a) (min k x.left) x
unfolding xor_read
xor_read_step k x pos some_left fits =
    let m = min k x.left in
    let open_end : (x.left == 0) ≡ false = ground arith in
    let fed : (ltb 0 m && length x.a == 0) ≡ false = ground arith in
    let whole : min m (length x.a) ≡ m = omega arith in
    ap (λ t. xor_read_left t k x) open_end
    ∙ ap (λ t. xor_read_a t m x) fed
    ∙ ap (λ n. xor_read_b x.b_eof (take m x.a) n x) whole

xor_read_end : (k : ℕ) (x : XorReader) → x.left ≡ 0 → xor_read k x ≡ (([], some eof), x)
unfolding xor_read
xor_read_end k x e =
    let at_end : (x.left == 0) ≡ true = ground arith in ap (λ t. xor_read_left t k x) at_end

-- With room in the buffer, a `Read` gives the end or a piece, and never an error.
pub xor_read-Progress :
    (k : ℕ) (x : XorReader) (out : Bytes)
    → 0 < k
    → XorGives x out
    → Progress XorGives (xor_read k x) out
unfolding XorGives
xor_read-Progress k x out pos (fits, g) = elim (dec_lt 0 x.left) [
  | yes more ↦
      subst (λ rr. Progress XorGives rr out) (sym (xor_read_step k x pos more fits))
        (piece-Progress (min k x.left) x out (omega arith) (omega arith) (fits, g))
  | no done ↦
      let e : x.left ≡ 0 = omega arith in
      inl (
        g ∙ ap (λ n. xor_onto (take n x.a) (mask x)) e ∙ xor_onto-nil_left (mask x),
        ap (λ rr. rr.0) (xor_read_end k x e),
      )
]

-- A new xorReader gives the exclusive or of the first `n` bytes.
pub fresh-XorGives :
    (a b : Bytes) (n : ℕ)
    → n ≤ length a
    → XorGives (record { a = a; b = b; left = n; b_eof = false }) (xor_onto (take n a) b)
unfolding XorGives
fresh-XorGives a b n h = (h, refl)
