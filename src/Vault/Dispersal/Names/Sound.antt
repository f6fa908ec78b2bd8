-- ===== src/Vault/Dispersal/Names/Sound.antt =====
-- What shardRE of internal/vault/dispersal.go matches.
use mathlib.Core.List.{reverse_aux, reverse-reverse}
use mathlib.Core.Path.{subst}
use shfm.Common.{
  ℕ, zero, suc, ◌≡◌, refl, sym, ap, ◌∙◌, true, Option, none, some, [], ◌∷◌, ◌++◌, reverse, Bytes,
  length, All, arith, Bool-cases, inl, inr,
}
use shfm.Vault.Dispersal.Names.{
  Kind, part_of, pad_of, dot, gen_length, shard_suffix, shard_name, is_hex, is_name, cut_kind,
  cut_hex, cut_name, with_gen, with_kind, parse_shard,
}
use shfm.Vault.Dispersal.Names.RoundTrip.{IsGen, reverse-shard_name, All-reverse, length-reverse}

cut_kind_sound :
    (r : Bytes) (k : Kind) (r' : Bytes)
    → cut_kind r ≡ some (k, r')
    → r ≡ reverse (shard_suffix (part_of k) (pad_of k)) ++ r'
unfolding cut_kind shard_suffix
cut_kind_sound [] k r' h = cc
cut_kind_sound (x ∷ []) k r' h = cc
cut_kind_sound (x ∷ y ∷ []) k r' h = cc
cut_kind_sound (x ∷ y ∷ z ∷ r) k r' h = ground arith

cut_hex_sound :
    (n : ℕ) (g r g' r' : Bytes)
    → cut_hex n g r ≡ some (g', r')
    → (t : Bytes) × (r ≡ t ++ r')
      × (g' ≡ reverse_aux t g)
      × (length t ≡ n)
      × All (λ c. is_hex c ≡ true) t
unfolding cut_hex
cut_hex_sound zero g r g' r' h = ([], cc, cc, refl, tt)
cut_hex_sound (suc n) g [] g' r' h = cc
cut_hex_sound (suc n) g (c ∷ r) g' r' h = elim (Bool-cases (is_hex c)) [
  | inl e ↦
      let (t, p, q, l, d) = cut_hex_sound n (c ∷ g) r g' r' (rw e at h) in
      (c ∷ t, ap (λ s. c ∷ s) p, q, ap suc l, (e, d))
  | inr e ↦ (let h' : Path (Option (Bytes × Bytes)) none (some (g', r')) = rw e at h in cc)
]

cut_name_sound :
    (k : Kind) (g r n g' : Bytes) (k' : Kind)
    → cut_name k g r ≡ some (n, g', k')
    → (r ≡ dot ∷ reverse n) × (is_name n ≡ true) × (g' ≡ g) × (k' ≡ k)
unfolding cut_name
cut_name_sound k g [] n g' k' h = cc
cut_name_sound k g (c ∷ r) n g' k' h = ground (arith, reverse-reverse r)

with_gen_sound :
    (k : Kind) (o : Option (Bytes × Bytes)) (n g : Bytes) (k' : Kind)
    → with_gen k o ≡ some (n, g, k')
    → (r : Bytes) × (o ≡ some (g, r)) × (r ≡ dot ∷ reverse n) × (is_name n ≡ true) × (k' ≡ k)
unfolding with_gen
with_gen_sound k none n g k' h = cc
with_gen_sound k (some (g₁, r)) n g k' h =
    let (shape, named, same, kind) = cut_name_sound k g₁ r n g k' h in (r, cc, shape, named, kind)

with_kind_sound :
    (o : Option (Kind × Bytes)) (n g : Bytes) (k : Kind)
    → with_kind o ≡ some (n, g, k)
    → (r : Bytes) × (o ≡ some (k, r))
      × (r ≡ reverse g ++ dot ∷ reverse n)
      × (is_name n ≡ true)
      × IsGen g
unfolding with_kind
with_kind_sound none n g k h = cc
with_kind_sound (some (k₁, r)) n g k h =
    let (r', cut, shape, named, kind) = with_gen_sound k₁ (cut_hex gen_length [] r) n g k h in
    let (t, spelled, digits, l, hex) = cut_hex_sound gen_length [] r g r' cut in
    let back : reverse g ≡ t = ap reverse digits ∙ reverse-reverse t in
    (
      r,
      cc,
      spelled ∙ cc (back, shape),
      named,
      record {
        len = ap length digits ∙ length-reverse t ∙ l;
        hex = subst (All (λ c. is_hex c ≡ true)) (sym digits) (All-reverse _ t hex);
      },
    )

-- What is read as a shard is the name of a shard, written from the very groups that were read.
pub parse_shard_sound :
    (s n g : Bytes) (k : Kind)
    → parse_shard s ≡ some (n, g, k)
    → (s ≡ shard_name n g (part_of k) (pad_of k)) × (is_name n ≡ true) × IsGen g
unfolding parse_shard
parse_shard_sound s n g k h =
    let (r, cut, shape, named, gen) = with_kind_sound (cut_kind (reverse s)) n g k h in
    let backwards : reverse s ≡ reverse (shard_name n g (part_of k) (pad_of k)) =
      cut_kind_sound (reverse s) k r cut
      ∙ ap (λ t. reverse (shard_suffix (part_of k) (pad_of k)) ++ t) shape
      ∙ sym (reverse-shard_name n g (part_of k) (pad_of k)) in
    (sym (reverse-reverse s) ∙ ap reverse backwards ∙ reverse-reverse _, named, gen)
