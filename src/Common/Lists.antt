-- ===== src/Common/Lists.antt =====
-- Lists measured and cut by native numbers, under the library's names.
use Prim.Native.Nat.{ℕ, zero, suc, ◌+◌, ◌-◌, ◌≤◌, min}
use mathlib.Core.Path.{◌≡◌, refl, sym, ap, ◌∙◌}
use mathlib.Core.List.{List, [], ◌∷◌, ◌++◌, map}
use mathlib.Core.Option.{Option, none, some}
use native.Mathlib.Omega.{arith}
use native.Mathlib.Nat.{zero-add, suc-add}

zero_sub : (n : ℕ) → 0 - n ≡ 0
zero_sub n = omega arith

pub sub_zero : (n : ℕ) → n - 0 ≡ n
sub_zero n = omega arith

zero_min : (n : ℕ) → min 0 n ≡ 0
zero_min n = omega arith

min-suc : (n m : ℕ) → min (suc n) (suc m) ≡ suc (min n m)
min-suc n m = omega arith

pub suc_sub_suc : (n m : ℕ) → suc n - suc m ≡ n - m
suc_sub_suc n m = omega arith

module _ {ℓ} {A : Type ℓ} where
  abbrev pub length : List A → ℕ
  length [] = 0
  length (x ∷ xs) = suc (length xs)

  abbrev pub take : ℕ → List A → List A
  take zero xs = []
  take (suc n) [] = []
  take (suc n) (x ∷ xs) = x ∷ take n xs

  abbrev pub drop : ℕ → List A → List A
  drop zero xs = xs
  drop (suc n) [] = []
  drop (suc n) (x ∷ xs) = drop n xs

  abbrev pub get_elem? : List A → ℕ → Option A
  get_elem? [] i = none
  get_elem? (x ∷ xs) zero = some x
  get_elem? (x ∷ xs) (suc i) = get_elem? xs i

  abbrev pub replicate : ℕ → A → List A
  replicate zero a = []
  replicate (suc n) a = a ∷ replicate n a

  pub length-append : (xs ys : List A) → length (xs ++ ys) ≡ length xs + length ys
  length-append [] ys = omega arith
  length-append (x ∷ xs) ys = omega (arith, length-append xs ys)

  pub take-append-drop : (n : ℕ) (xs : List A) → take n xs ++ drop n xs ≡ xs
  take-append-drop zero xs = refl
  take-append-drop (suc n) [] = refl
  take-append-drop (suc n) (x ∷ xs) = ap (λ t. x ∷ t) (take-append-drop n xs)

  pub length-take : (n : ℕ) (xs : List A) → length (take n xs) ≡ min n (length xs)
  length-take zero xs = omega arith
  length-take (suc n) [] = omega arith
  length-take (suc n) (x ∷ xs) = omega (arith, length-take n xs)

  pub length-drop : (n : ℕ) (xs : List A) → length (drop n xs) ≡ length xs - n
  length-drop zero xs = omega arith
  length-drop (suc n) [] = omega arith
  length-drop (suc n) (x ∷ xs) = omega (arith, length-drop n xs)

  pub length-replicate : (n : ℕ) (a : A) → length (replicate n a) ≡ n
  length-replicate zero a = refl
  length-replicate (suc n) a = ap suc (length-replicate n a)

  -- A take that reaches the end takes all, and a drop nothing.
  pub take_all : (n : ℕ) (xs : List A) → length xs ≤ n → take n xs ≡ xs
  take_all zero [] h = refl
  take_all zero (x ∷ xs) h = absurd (omega arith)
  take_all (suc n) [] h = refl
  take_all (suc n) (x ∷ xs) h = ap (λ t. x ∷ t) (take_all n xs (omega arith))

  pub drop_all : (n : ℕ) (xs : List A) → length xs ≤ n → drop n xs ≡ []
  drop_all zero [] h = refl
  drop_all zero (x ∷ xs) h = absurd (omega arith)
  drop_all (suc n) [] h = refl
  drop_all (suc n) (x ∷ xs) h = drop_all n xs (omega arith)

  pub take-append :
      (n : ℕ) (xs ys : List A) → take n (xs ++ ys) ≡ take n xs ++ take (n - length xs) ys
  take-append zero xs ys = ground (arith, zero_sub (length xs))
  take-append (suc n) [] ys = rw (sub_zero (suc n))
  take-append (suc n) (x ∷ xs) ys = ground (arith, take-append n xs ys, suc_sub_suc n (length xs))

  pub drop-append :
      (n : ℕ) (xs ys : List A) → drop n (xs ++ ys) ≡ drop n xs ++ drop (n - length xs) ys
  drop-append zero xs ys = ground (arith, zero_sub (length xs))
  drop-append (suc n) [] ys = rw (sub_zero (suc n))
  drop-append (suc n) (x ∷ xs) ys = ground (arith, drop-append n xs ys, suc_sub_suc n (length xs))

  pub take-nil : (n : ℕ) → take n [] ≡ []
  take-nil zero = refl
  take-nil (suc n) = refl

  pub drop-nil : (n : ℕ) → drop n [] ≡ []
  drop-nil zero = refl
  drop-nil (suc n) = refl

  pub drop-drop : (m n : ℕ) (xs : List A) → drop m (drop n xs) ≡ drop (n + m) xs
  drop-drop m zero xs = simp zero-add
  drop-drop m (suc n) [] = simp suc-add (drop-nil m)
  drop-drop m (suc n) (x ∷ xs) = simp suc-add (drop-drop m n xs)

  -- Cutting in two pieces is cutting once.
  pub take-add : (m n : ℕ) (xs : List A) → take (m + n) xs ≡ take m xs ++ take n (drop m xs)
  take-add zero n xs = simp zero-add
  take-add (suc m) n [] = simp suc-add (sym (take-nil n))
  take-add (suc m) n (x ∷ xs) = simp suc-add (ap (λ t. x ∷ t) (take-add m n xs))

  pub take-min : (n : ℕ) (xs : List A) → take (min n (length xs)) xs ≡ take n xs
  take-min n [] = take-nil (min n 0) ∙ sym (take-nil n)
  take-min zero (x ∷ xs) = ap (λ k. take k (x ∷ xs)) (zero_min (suc (length xs)))
  take-min (suc n) (x ∷ xs) =
      ap (λ k. take k (x ∷ xs)) (min-suc n (length xs)) ∙ ap (λ t. x ∷ t) (take-min n xs)

  pub take-drop-append :
      (n pos : ℕ) (xs ys : List A)
      → pos + n ≤ length xs
      → take n (drop pos (xs ++ ys)) ≡ take n (drop pos xs)
  take-drop-append zero pos xs ys h = refl
  take-drop-append (suc n) pos [] ys h = absurd (omega arith)
  take-drop-append (suc n) zero (x ∷ xs) ys h =
      ap (λ t. x ∷ t) (take-drop-append n zero xs ys (omega arith))
  take-drop-append (suc n) (suc pos) (x ∷ xs) ys h =
      take-drop-append (suc n) pos xs ys (omega arith)

  pub drop-append_right :
      (pos : ℕ) (xs ys : List A) → drop (length xs + pos) (xs ++ ys) ≡ drop pos ys
  drop-append_right pos [] ys = simp zero-add
  drop-append_right pos (x ∷ xs) ys = simp suc-add (drop-append_right pos xs ys)

  pub take-split :
      (m n : ℕ) (xs : List A) → m ≤ n → take n xs ≡ take m xs ++ take (n - m) (drop m xs)
  take-split zero n xs h = rw (sub_zero n)
  take-split (suc m) zero xs h = absurd (omega arith)
  take-split (suc m) (suc n) [] h = sym (take-nil (suc n - suc m))
  take-split (suc m) (suc n) (x ∷ xs) h =
      rw (suc_sub_suc n m) (ap (λ t. x ∷ t) (take-split m n xs (omega arith)))

  -- As above, where a piece that is short ends the list.
  pub take-split_short :
      (m n : ℕ) (xs : List A)
      → m ≤ n
      → take n xs ≡ take m xs ++ take (n - length (take m xs)) (drop m xs)
  take-split_short zero n xs h = rw (sub_zero n)
  take-split_short (suc m) n [] h = take-nil n ∙ sym (take-nil (n - 0))
  take-split_short (suc m) zero (x ∷ xs) h = absurd (omega arith)
  take-split_short (suc m) (suc n) (x ∷ xs) h =
      rw (suc_sub_suc n (length (take m xs)))
        (ap (λ t. x ∷ t) (take-split_short m n xs (omega arith)))

module _ {ℓ κ} {A : Type ℓ} {B : Type κ} where
  pub length-map : (f : A → B) (xs : List A) → length (map f xs) ≡ length xs
  length-map f [] = refl
  length-map f (x ∷ xs) = ap suc (length-map f xs)
