-- ===== src/Vault/Dispersal/Reader/Drain.antt =====
-- io.Copy from a stepReader (internal/vault/dispersal.go).
use mathlib.Core.Path.{subst}
use shfm.Common.{
  ℕ, zero, suc, ◌-◌, ◌<◌, ◌≡◌, refl, sym, ap, ◌∙◌, inl, inr, Option, none, some, List, [], ◌∷◌,
  ◌++◌, append_assoc, Bytes, length, take, drop, min, arith, length-append, length-take,
  take-split_short, take-nil,
}
use shfm.Vault.Dispersal.Xor.{eof, ReadResult, XorReader, xor_read}
use shfm.Vault.Dispersal.Xor.Piece.{Progress, XorGives, xor_read-Progress}
use shfm.Vault.Dispersal.Reader.{
  Reader, limited, xored, limited_read, as_reader, reader_read, StepReader, after_read, read_next,
  read_from, step_read, copy_on, copy_all,
}

-- `out` is what the reader has left to give, without an error.
abbrev pub Gives : Reader → Bytes → Type 0
Gives (limited c n) out = out ≡ take n c
Gives (xored x) out = XorGives x out

take-pos : (m : ℕ) (c : Bytes) → 0 < m → 0 < length c → 0 < length (take m c)
take-pos m c h g = omega (arith, length-take m c)

limited-Progress :
    (k : ℕ) (c : Bytes) (n : ℕ) (out : Bytes)
    → 0 < k
    → Gives (limited c n) out
    → Progress Gives (limited_read k c n) out
unfolding limited_read
limited-Progress k [] n out h g = inl (g ∙ take-nil n, refl)
limited-Progress k (x ∷ c) zero out h g = inl (g, refl)
limited-Progress k (x ∷ c) (suc n) out h g =
    let m = min k (suc n) in
    let p = take m (x ∷ c) in
    inr (
      p,
      take (suc n - length p) (drop m (x ∷ c)),
      refl,
      g ∙ take-split_short m (suc n) (x ∷ c) (omega arith),
      take-pos m (x ∷ c) (omega arith) (omega arith),
      refl,
    )

as_reader-Progress :
    (rx : ReadResult × XorReader) (out : Bytes)
    → Progress XorGives rx out
    → Progress Gives (as_reader rx) out
unfolding as_reader
as_reader-Progress (r, x) out h = h

reader_read-Progress :
    (k : ℕ) (r : Reader) (out : Bytes) → 0 < k → Gives r out → Progress Gives (reader_read k r) out
unfolding reader_read
reader_read-Progress k (limited c n) out h g = limited-Progress k c n out h g
reader_read-Progress k (xored x) out h g =
    as_reader-Progress (xor_read k x) out (xor_read-Progress k x out h g)

-- All steps open, and give `out` in order.
abbrev pub StepsGive : List (Option Reader) → Bytes → Type 0
StepsGive [] out = out ≡ []
StepsGive (none ∷ steps) out = ⊥
StepsGive (some r ∷ steps) out =
    (o : Bytes) × (rest : Bytes) × Gives r o × StepsGive steps rest × (out ≡ o ++ rest)

abbrev pub CurGives : Option Reader → Bytes → Type 0
CurGives none o = o ≡ []
CurGives (some r) o = Gives r o

pub AllGive : StepReader → Bytes → Type 0
AllGive s out =
    (o : Bytes) × (rest : Bytes) × CurGives s.cur o × StepsGive s.steps rest × (out ≡ o ++ rest)

after_read-eof :
    (rr : ReadResult × Reader) (steps : List (Option Reader)) (others : ReadResult × StepReader)
    → rr.0 ≡ ([], some eof)
    → after_read rr steps others ≡ others
unfolding after_read
after_read-eof ((p, e), r) steps others h = ap (λ t. after_read (t, r) steps others) h

after_read-more :
    (rr : ReadResult × Reader) (steps : List (Option Reader)) (others : ReadResult × StepReader)
    (p : Bytes)
    → rr.0 ≡ (p, none)
    → after_read rr steps others ≡ ((p, none), record { steps = steps; cur = some rr.1 })
unfolding after_read
after_read-more ((q, e), r) steps others p h = ap (λ t. after_read (t, r) steps others) h

after_read-Progress :
    (rr : ReadResult × Reader) (steps : List (Option Reader)) (others : ReadResult × StepReader)
    (o rest : Bytes)
    → Progress Gives rr o
    → StepsGive steps rest
    → Progress AllGive others rest
    → Progress AllGive (after_read rr steps others) (o ++ rest)
unfolding AllGive
after_read-Progress rr steps others o rest (inl (e, h)) g others_give =
    subst (λ t. Progress AllGive t (o ++ rest)) (sym (after_read-eof rr steps others h))
      (subst (λ t. Progress AllGive others (t ++ rest)) (sym e) others_give)
after_read-Progress rr steps others o rest (inr (p, o', e, q, pos, gives)) g others_give =
    subst (λ t. Progress AllGive t (o ++ rest)) (sym (after_read-more rr steps others p e))
      (inr (
        p,
        o' ++ rest,
        refl,
        ap (λ t. t ++ rest) q ∙ append_assoc p o' rest,
        pos,
        (o', rest, gives, g, refl),
      ))

read_next-Progress :
    (k : ℕ) (steps : List (Option Reader)) (out : Bytes)
    → 0 < k
    → StepsGive steps out
    → Progress AllGive (read_next k steps) out
unfolding read_next
read_next-Progress k [] out h g = inl (g, refl)
read_next-Progress k (none ∷ steps) out h g = absurd g
read_next-Progress k (some r ∷ steps) out h (o, rest, gr, gs, e) =
    subst (λ t. Progress AllGive (read_next k (some r ∷ steps)) t) (sym e)
      (after_read-Progress (reader_read k r) steps (read_next k steps) o rest
        (reader_read-Progress k r o h gr) gs (read_next-Progress k steps rest h gs))

read_from-Progress :
    (k : ℕ) (cur : Option Reader) (steps : List (Option Reader)) (o rest : Bytes)
    → 0 < k
    → CurGives cur o
    → StepsGive steps rest
    → Progress AllGive (read_from k cur steps) (o ++ rest)
unfolding read_from
read_from-Progress k none steps o rest h e gs =
    subst (λ t. Progress AllGive (read_next k steps) (t ++ rest)) (sym e)
      (read_next-Progress k steps rest h gs)
read_from-Progress k (some r) steps o rest h gr gs =
    after_read-Progress (reader_read k r) steps (read_next k steps) o rest
      (reader_read-Progress k r o h gr) gs (read_next-Progress k steps rest h gs)

-- Every `Read` with room in its buffer gives the next piece, or the end where nothing is left.
pub step_read-Progress :
    (k : ℕ) (s : StepReader) (out : Bytes)
    → 0 < k
    → AllGive s out
    → Progress AllGive (step_read k s) out
unfolding step_read AllGive
step_read-Progress k s out h (o, rest, gc, gs, e) =
    subst (λ t. Progress AllGive (step_read k s) t) (sym e)
      (read_from-Progress k s.cur s.steps o rest h gc gs)

copy_on-eof :
    (rs : ReadResult × StepReader) (acc : Bytes) (others : StepReader → Bytes → Option Bytes)
    → rs.0 ≡ ([], some eof)
    → copy_on rs acc others ≡ some (acc ++ [])
unfolding copy_on
copy_on-eof (r, s) acc others h = ap (λ t. copy_on (t, s) acc others) h

copy_on-more :
    (rs : ReadResult × StepReader) (acc p : Bytes) (others : StepReader → Bytes → Option Bytes)
    → rs.0 ≡ (p, none)
    → copy_on rs acc others ≡ others rs.1 (acc ++ p)
unfolding copy_on
copy_on-more (r, s) acc p others h = ap (λ t. copy_on (t, s) acc others) h

-- Copying ends, and gives the readers' contents one after the other, whatever the size of the
-- buffer: one round for each byte, and one for the end, is fuel enough.
pub copy_all-AllGive :
    (fuel k : ℕ) (s : StepReader) (out acc : Bytes)
    → 0 < k
    → length out < fuel
    → AllGive s out
    → copy_all fuel k s acc ≡ some (acc ++ out)
unfolding copy_all
copy_all-AllGive zero k s out acc h f g = absurd (omega arith)
copy_all-AllGive (suc fuel) k s out acc h f g = elim (step_read-Progress k s out h g) [
  | inl (e, end) ↦
      copy_on-eof (step_read k s) acc (copy_all fuel k) end ∙ ap (λ t. some (acc ++ t)) (sym e)
  | inr (p, rest, more, e, pos, gives) ↦
      copy_on-more (step_read k s) acc p (copy_all fuel k) more
      ∙ copy_all-AllGive fuel k (step_read k s).1 rest (acc ++ p) h
          (omega (arith, ap length e, length-append p rest)) gives
      ∙ ap some (append_assoc acc p rest ∙ ap (λ t. acc ++ t) (sym e))
]

-- A new stepReader gives what its steps give.
pub fresh-AllGive :
    (steps : List (Option Reader)) (out : Bytes)
    → StepsGive steps out
    → AllGive (record { steps = steps; cur = none }) out
unfolding AllGive
fresh-AllGive steps out h = ([], out, refl, h, refl)
