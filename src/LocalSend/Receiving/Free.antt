-- ===== src/LocalSend/Receiving/Free.antt =====
-- The search for a free name, of internal/localsend/receive.go.
use shfm.Common.{
  ℕ, zero, suc, ◌+◌, ◌≤◌, ◌<◌, ◌≡◌, ◌≢◌, refl, ap, ◌∙◌, true, false, ◌||◌, Option, some, List, [],
  ◌∷◌, ◌++◌, Bytes, length, length-append, arith, Bool-cases, inl, inr, bytes_eq, bytes_eq_iff,
  if◌then◌else◌,
}
use shfm.LocalSend.Names.{max_name_bytes, numbered, suffix_of, extension_at, last_index}
use shfm.LocalSend.Names.Numbered.{numbered-Fits}
use shfm.LocalSend.Names.Apart.{numbered_injective}
use shfm.LocalSend.Receiving.{TakenNames, is_in, is_taken, free_or, free_loop, free}

without : Bytes → List Bytes → List Bytes
without n [] = []
without n (m ∷ ms) = let rest = without n ms in if bytes_eq n m then rest else m ∷ rest

length-without : (n : Bytes) (ms : List Bytes) → length (without n ms) ≤ length ms
unfolding without
length-without n [] = omega arith
length-without n (m ∷ ms) = ground (arith, length-without n ms)

length-without_found :
    (n : Bytes) (ms : List Bytes) → is_in n ms ≡ true → length (without n ms) < length ms
unfolding without is_in
length-without_found n [] h = cc
length-without_found n (m ∷ ms) h = ground (arith, length-without n ms, length-without_found n ms)

is_in-without :
    (n k : Bytes) (ms : List Bytes) → n ≢ k → is_in k ms ≡ true → is_in k (without n ms) ≡ true
unfolding without is_in
is_in-without n k [] ne h = cc
is_in-without n k (m ∷ ms) ne h =
    ground (arith, bytes_eq_iff n m, bytes_eq_iff k m, is_in-without n k ms ne)

is_in-append :
    (k : Bytes) (xs ys : List Bytes) → (is_in k xs || is_in k ys) ≡ true → is_in k (xs ++ ys) ≡ true
unfolding is_in
is_in-append k [] ys h = h
is_in-append k (x ∷ xs) ys h = ground (arith, is_in-append k xs ys)

-- A free name that fits.
abbrev IsFound : TakenNames → Option Bytes → Type 0
IsFound f o = (s : Bytes) × (o ≡ some s) × (is_taken f s ≡ false) × (length s ≤ max_name_bytes)

module _ (f : TakenNames) (name : Bytes) (last : ℕ)
    (room : (n : ℕ)
      → n ≤ last
      → length (suffix_of n) + length (extension_at name (last_index b'.' name)).1 ≤ 239) where
  -- `left` is what the numbers tried so far leave of the names taken.
  free_loop-IsFound :
      (fuel n : ℕ) (left : List Bytes)
      → length left < fuel
      → n + fuel ≤ suc last
      → ((k : ℕ) (s : Bytes)
          → n ≤ k
          → numbered name k ≡ some s
          → is_taken f s ≡ true
          → is_in s left ≡ true)
      → IsFound f (free_loop fuel f name n)
  unfolding free_loop free_or
  free_loop-IsFound zero n left h b later = absurd (omega arith)
  free_loop-IsFound (suc fuel) n left h b later =
      let (s, e, fits) = numbered-Fits name n (room n (omega arith)) in
      rw e (elim (Bool-cases (is_taken f s)) [
        | inl t ↦ rw t (
            free_loop-IsFound fuel (n + 1) (without s left)
              (omega (arith, length-without_found s left (later n s (omega arith) e t)))
              (omega arith)
              (λ k r le q u.
                is_in-without s r left
                  (λ same. omega (arith, numbered_injective name n k r (e ∙ ap some same) q, le))
                  (later k r (omega arith) q u)))
        | inr t ↦ rw t (s, refl, t, fits)
      ])

-- The search for a free name ends, and the name that it gives is neither claimed nor in the folder
-- and has at most 255 bytes, for a name of at most 255 bytes where the numbers up to two more than
-- the names that are taken and the extension leave 16 bytes for the rest.
pub free-IsFound :
    (f : TakenNames) (name : Bytes)
    → length name ≤ max_name_bytes
    → ((n : ℕ)
        → n ≤ 2 + (length f.claimed + length f.present)
        → length (suffix_of n) + length (extension_at name (last_index b'.' name)).1 ≤ 239)
    → (s : Bytes) × (free f name ≡ some s) × (is_taken f s ≡ false) × (length s ≤ max_name_bytes)
unfolding free is_taken
free-IsFound f name short room =
    let taken = length f.claimed + length f.present in
    elim (Bool-cases (is_taken f name)) [
      | inl t ↦ rw t (
          free_loop-IsFound f name (2 + taken) room (suc taken) 2 (f.claimed ++ f.present)
            (omega (arith, length-append f.claimed f.present)) (omega arith)
            (λ k s le e u. is_in-append s f.claimed f.present u))
      | inr t ↦ rw t (name, refl, t, short)
    ]
