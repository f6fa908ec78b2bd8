-- ===== src/Vault/Dispersal/Open/AnyTwo.antt =====
-- Open of internal/vault/dispersal.go by which two shards are there.
use mathlib.Core.Path.{subst}
use shfm.Common.{
  ℕ, ◌≤◌, ◌<◌, ◌≡◌, refl, sym, ap, ◌∙◌, Bool, true, false, Option, some, [], ◌∷◌, Bytes, length,
  take, drop, arith, length-take, length-drop, take-append-drop, take_all, append-nil,
}
use shfm.Common.Int.{pos}
use shfm.Vault.Dispersal.Generation.{Generation, count, halves}
use shfm.Vault.Dispersal.Generation.Laws.{IsWrite, IsWrite-sizes, len_a, len_b}
use shfm.Vault.Dispersal.Xor.{xor_onto, shards}
use shfm.Vault.Dispersal.Xor.Laws.{xor_onto_cancel, xor_onto_cancel_left, length-xor_onto}
use shfm.Vault.Dispersal.Xor.Piece.{XorGives, fresh-XorGives}
use shfm.Vault.Dispersal.Reader.{Reader, limited, xored, copy_all}
use shfm.Vault.Dispersal.Reader.Drain.{Gives, StepsGive, copy_all-AllGive, fresh-AllGive}
use shfm.Vault.Dispersal.Open.{Parts, open_shard, single, xor, steps_for, open_steps, open_reader}

-- Whatever shards `g` has are, on their parts, the shards of content `c`.
pub record HoldsShards (parts : Parts) (name c : Bytes) (g : Generation) : Type 0 where
  pub shard_a : g.have.p0 ≡ true → open_shard parts name g 0 ≡ some (shards c).p0
  pub shard_b : g.have.p1 ≡ true → open_shard parts name g 1 ≡ some (shards c).p1
  pub shard_c : g.have.p2 ≡ true → open_shard parts name g 2 ≡ some (shards c).p2

-- A, then B, are the content.
halves-Gives :
    (c : Bytes) (r s : Reader)
    → Gives r (shards c).p0
    → Gives s (shards c).p1
    → StepsGive (some r ∷ some s ∷ []) c
unfolding shards
halves-Gives c r s h k =
    let n = len_a (length c) in
    (
      take n c,
      drop n c,
      h,
      (drop n c, [], k, refl, sym (append-nil (drop n c))),
      sym (take-append-drop n c),
    )

cancel_c : (c : Bytes) → xor_onto (shards c).p2 (shards c).p1 ≡ (shards c).p0
unfolding shards
cancel_c c = xor_onto_cancel (take (len_a (length c)) c) (drop (len_a (length c)) c)

cancel_a :
    (c : Bytes) → xor_onto (take (length (shards c).p1) (shards c).p0) (shards c).p2 ≡ (shards c).p1
unfolding shards
cancel_a c =
    let n = len_a (length c) in
    xor_onto_cancel_left (take n c) (drop n c) (omega (arith, length-take n c, length-drop n c))

pub length-shard_a : (c : Bytes) → length (shards c).p0 ≡ len_a (length c)
unfolding shards
length-shard_a c = omega (arith, length-take (len_a (length c)) c)

pub length-shard_b : (c : Bytes) → length (shards c).p1 ≡ len_b (length c)
unfolding shards
length-shard_b c = omega (arith, length-drop (len_a (length c)) c)

-- the readers of the steps give the halves
limited_a : (c : Bytes) → Gives (limited (shards c).p0 (len_a (length c))) (shards c).p0
limited_a c = sym (take_all (len_a (length c)) (shards c).p0 (omega (arith, length-shard_a c)))

limited_b : (c : Bytes) → Gives (limited (shards c).p1 (len_b (length c))) (shards c).p1
limited_b c = sym (take_all (len_b (length c)) (shards c).p1 (omega (arith, length-shard_b c)))

abbrev fresh : Bytes → Bytes → ℕ → Reader
fresh a b n = xored (record { a = a; b = b; left = n; b_eof = false })

pub length-shard_c : (c : Bytes) → length (shards c).p2 ≡ len_a (length c)
unfolding shards
length-shard_c c =
    length-xor_onto (take (len_a (length c)) c) (drop (len_a (length c)) c) ∙ length-shard_a c

-- C xor B, over the length of A
xored_a : (c : Bytes) → Gives (fresh (shards c).p2 (shards c).p1 (len_a (length c))) (shards c).p0
xored_a c =
    subst
      (λ t.
        XorGives
          (record { a = (shards c).p2; b = (shards c).p1; left = len_a (length c); b_eof = false })
          t)
      (ap (λ t. xor_onto t (shards c).p1)
          (take_all (len_a (length c)) (shards c).p2 (omega (arith, length-shard_c c)))
        ∙ cancel_c c)
      (fresh-XorGives (shards c).p2 (shards c).p1 (len_a (length c))
        (omega (arith, length-shard_c c)))

-- A xor C, over the length of B
xored_b : (c : Bytes) → Gives (fresh (shards c).p0 (shards c).p2 (len_b (length c))) (shards c).p1
xored_b c =
    subst
      (λ t.
        XorGives
          (record { a = (shards c).p0; b = (shards c).p2; left = len_b (length c); b_eof = false })
          t)
      (ap (λ n. xor_onto (take n (shards c).p0) (shards c).p2) (sym (length-shard_b c))
        ∙ cancel_a c)
      (fresh-XorGives (shards c).p0 (shards c).p2 (len_b (length c))
        (omega (arith, length-shard_a c)))

module _ (parts : Parts) (name c : Bytes) (g : Generation) (w : IsWrite (length c) g)
    (two : 2 ≤ count g) (h : HoldsShards parts name c g) where
  both_halves : halves g ≡ (pos (len_a (length c)), pos (len_b (length c)))
  both_halves = (IsWrite-sizes (length c) g w two).2

  single_a :
      g.have.p0 ≡ true
      → single parts name g 0 (halves g).0 ≡ some (limited (shards c).p0 (len_a (length c)))
  unfolding single
  single_a e = rw both_halves (rw (h.shard_a e) refl)

  single_b :
      g.have.p1 ≡ true
      → single parts name g 1 (halves g).1 ≡ some (limited (shards c).p1 (len_b (length c)))
  unfolding single
  single_b e = rw both_halves (rw (h.shard_b e) refl)

  xor_a :
      g.have.p1 ≡ true
      → g.have.p2 ≡ true
      → xor parts name g 2 1 (halves g).0
        ≡ some (fresh (shards c).p2 (shards c).p1 (len_a (length c)))
  unfolding xor
  xor_a e f = rw both_halves (rw (h.shard_c f) (rw (h.shard_b e) refl))

  xor_b :
      g.have.p0 ≡ true
      → g.have.p2 ≡ true
      → xor parts name g 0 2 (halves g).1
        ≡ some (fresh (shards c).p0 (shards c).p2 (len_b (length c)))
  unfolding xor
  xor_b e f = rw both_halves (rw (h.shard_a e) (rw (h.shard_c f) refl))

  give_two :
      (r s : Option Reader) (x y : Reader)
      → r ≡ some x
      → s ≡ some y
      → Gives x (shards c).p0
      → Gives y (shards c).p1
      → StepsGive (r ∷ s ∷ []) c
  give_two r s x y er es gx gy = rw er (rw es (halves-Gives c x y gx gy))

  steps_for-StepsGive :
      (x y : Bool)
      → g.have.p0 ≡ x
      → g.have.p1 ≡ y
      → StepsGive (steps_for parts name g x y (halves g).0 (halves g).1) c
  unfolding steps_for count
  steps_for-StepsGive true true ea eb =
      give_two _ _ _ _ (single_a ea) (single_b eb) (limited_a c) (limited_b c)
  steps_for-StepsGive true false ea eb =
      give_two _ _ _ _ (single_a ea) (xor_b ea (ground arith)) (limited_a c) (xored_b c)
  steps_for-StepsGive false y ea eb =
      give_two _ _ _ _ (xor_a (ground arith) (ground arith)) (single_b (ground arith)) (xored_a c)
        (limited_b c)

  -- Suppose that `g` is a write of content `c`, that at least two of its shards are there, and
  -- that these can be opened. Reading the file with a buffer of any size then ends and gives `c`,
  -- whichever shard is missing.
  pub copy-open_any_two :
      (fuel k : ℕ)
      → 0 < k
      → length c < fuel
      → copy_all fuel k (open_reader parts name g) [] ≡ some c
  unfolding open_reader
  copy-open_any_two fuel k room enough =
      copy_all-AllGive fuel k (open_reader parts name g) c [] room enough (
        fresh-AllGive (open_steps parts name g) c
          (steps_for-StepsGive g.have.p0 g.have.p1 refl refl))
