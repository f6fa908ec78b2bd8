-- ===== src/Vault/Dispersal/Names/RoundTrip.antt =====
-- shardRE on what shardName writes (internal/vault/dispersal.go).
use mathlib.Core.List.{reverse_aux, reverse-append, reverse-reverse}
use mathlib.Core.Path.{subst}
use shfm.Common.{
  ℕ, zero, suc, ◌<◌, ◌≡◌, ◌≢◌, refl, ap, ◌∙◌, true, none, some, [], ◌∷◌, ◌++◌, reverse,
  append_assoc, Bytes, length, length-append, All, All-append, arith, if◌then◌else◌,
}
use shfm.Vault.Dispersal.Names.{
  Kind, a, b, c0, c1, dot, gen_length, shard_suffix, shard_name, is_hex, is_name, cut_kind, cut_hex,
  with_kind, parse_shard,
}

-- Eight hexadecimal digits, as `newGen` makes them.
pub record IsGen (g : Bytes) : Type 0 where
  pub len : length g ≡ gen_length
  pub hex : All (λ c. is_hex c ≡ true) g

-- The kind that `shardName` writes for a part and a padding.
abbrev pub kind_of : ℕ → ℕ → Kind
kind_of zero pad = a
kind_of (suc zero) pad = b
kind_of (suc (suc part)) zero = c0
kind_of (suc (suc part)) (suc pad) = c1

reverse_cons : (c : ℕ) (s : Bytes) → reverse (c ∷ s) ≡ reverse s ++ c ∷ []
reverse_cons c s = reverse-append (c ∷ []) s

pub length-reverse : (s : Bytes) → length (reverse s) ≡ length s
length-reverse [] = refl
length-reverse (c ∷ s) =
    rw reverse_cons (omega (arith, length-append (reverse s) (c ∷ []), length-reverse s))

pub All-reverse : (P : ℕ → Type 0) (s : Bytes) → All P s → All P (reverse s)
All-reverse P [] h = tt
All-reverse P (c ∷ s) h =
    rw reverse_cons (All-append P (reverse s) (c ∷ []) (All-reverse P s h.1) (h.0, tt))

-- the name, backwards: suffix, generation, dot, name
pub reverse-shard_name :
    (name gen : Bytes) (part pad : ℕ)
    → reverse (shard_name name gen part pad)
      ≡ reverse (shard_suffix part pad) ++ (reverse gen ++ dot ∷ reverse name)
unfolding shard_name
reverse-shard_name name gen part pad = simp (reverse-append, reverse_cons, append_assoc)

cut_hex-append :
    (r rest g : Bytes)
    → All (λ c. is_hex c ≡ true) r
    → cut_hex (length r) g (r ++ rest) ≡ some (reverse_aux r g, rest)
unfolding cut_hex
cut_hex-append [] rest g h = refl
cut_hex-append (c ∷ r) rest g h = rw h.0 (cut_hex-append r rest (c ∷ g) h.1)

cut_kind-shard_suffix :
    (part pad : ℕ) (r : Bytes)
    → pad < 2
    → r ≢ []
    → cut_kind (reverse (shard_suffix part pad) ++ r) ≡ some (kind_of part pad, r)
unfolding cut_kind shard_suffix
cut_kind-shard_suffix part pad [] h ne = absurd (ne refl)
cut_kind-shard_suffix zero pad (z ∷ r) h ne = refl
cut_kind-shard_suffix (suc zero) pad (z ∷ r) h ne = refl
cut_kind-shard_suffix (suc (suc part)) zero (z ∷ r) h ne = refl
cut_kind-shard_suffix (suc (suc part)) (suc zero) (z ∷ r) h ne = refl
cut_kind-shard_suffix (suc (suc part)) (suc (suc pad)) (z ∷ r) h ne = absurd (omega arith)

append-cons-ne : (s r : Bytes) (c : ℕ) → s ++ c ∷ r ≢ []
append-cons-ne [] r c e = cc
append-cons-ne (x ∷ s) r c e = cc

with_kind-reverse :
    (name gen : Bytes) (k : Kind)
    → IsGen gen
    → with_kind (some (k, reverse gen ++ dot ∷ reverse name))
      ≡ (if is_name name then some (name, gen, k) else none)
unfolding with_kind
with_kind-reverse name gen k g =
    let digits : cut_hex gen_length [] (reverse gen ++ dot ∷ reverse name)
        ≡ some (gen, dot ∷ reverse name) =
      subst (λ n. cut_hex n [] (reverse gen ++ dot ∷ reverse name) ≡ some (gen, dot ∷ reverse name))
        (length-reverse gen ∙ g.len)
        (cut_hex-append (reverse gen) (dot ∷ reverse name) [] (All-reverse _ gen g.hex)
          ∙ ap (λ t. some (t, dot ∷ reverse name)) (reverse-reverse gen)) in
    rw (digits, with_kind) (rw (reverse-reverse name) refl)

-- Reading a shard's name gives the file's name, its generation and the shard's kind, exactly if
-- the file's name is not empty and has no line break in it; a name with one is not recognised.
pub parse-shard_name :
    (name gen : Bytes) (part pad : ℕ)
    → IsGen gen
    → pad < 2
    → parse_shard (shard_name name gen part pad)
      ≡ (if is_name name then some (name, gen, kind_of part pad) else none)
unfolding parse_shard
parse-shard_name name gen part pad g h =
    rw (reverse-shard_name name gen part pad, parse_shard)
      (rw
        (cut_kind-shard_suffix part pad (reverse gen ++ dot ∷ reverse name) h
          (append-cons-ne (reverse gen) (reverse name) dot))
        (with_kind-reverse name gen (kind_of part pad) g))
