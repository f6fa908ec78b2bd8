-- ===== src/Vault/Dispersal/Listing/Ours.antt =====
-- The shards of one write of a file, among the entries that list of internal/vault/dispersal.go reads.
use mathlib.Core.Path.{subst}
use shfm.Common.{
  ℕ, zero, suc, ◌<◌, ◌≡◌, ◌≢◌, refl, sym, ap, ◌∙◌, ◌⊎◌, inl, inr, Bool, true, false, Option, none,
  some, List, [], ◌∷◌, Bytes, length, max, arith, if◌then◌else◌, bytes_eq, ◌==◌, bytes_eq_iff,
  bytes_eq_refl, Bool-cases,
}
use shfm.Common.Dict.{lookup, alter, lookup-alter}
use shfm.Backend.Nodes.{Node, file, folder}
use shfm.Vault.Dispersal.Names.{Kind, parse_shard, part_of}
use shfm.Vault.Dispersal.Names.RoundTrip.{kind_of}
use shfm.Vault.Dispersal.Generation.{Three, three, at, set_at, Generation}
use shfm.Vault.Dispersal.Generation.Laws.{len_a, len_b, pad_for}
use shfm.Vault.Dispersal.Xor.{shards}
use shfm.Vault.Dispersal.Open.AnyTwo.{length-shard_a, length-shard_b, length-shard_c}
use shfm.Vault.Dispersal.Listing.{Gens, generation_or_new, gens_or_new, mark, add_shard}

pub if_true : {A : Type 0} (x : Bool) (p q : A) → x ≡ true → (if x then p else q) ≡ p
if_true true p q e = refl
if_true false p q e = cc

pub if_false : {A : Type 0} (x : Bool) (p q : A) → x ≡ false → (if x then p else q) ≡ q
if_false true p q e = cc
if_false false p q e = refl

module _ (name gen c : Bytes) where
  -- The generation of the write, as far as its shards were seen.
  abbrev pub gen_with : Three Bool → ℕ → Generation
  gen_with b t = record {
    gen = gen;
    have = b;
    size =
        three (if b.p0 then len_a (length c) else 0) (if b.p1 then len_b (length c) else 0)
          (if b.p2 then len_a (length c) else 0);
    pad = if b.p2 then pad_for (length c) else 0;
    mtime = t;
  }

  pad_small : pad_for (length c) < 2
  pad_small = omega arith

  mark_c :
      (p i n u : ℕ) (x : Bool) (b : Three Bool) (s : Three ℕ) (t : ℕ)
      → p < 2
      → mark
          (suc (suc i))
          (kind_of (suc (suc i)) p)
          n
          u
          (record { gen = gen; have = b; size = s; pad = if x then p else 0; mtime = t })
        ≡ record {
          gen = gen;
          have = set_at 2 true b;
          size = set_at 2 n s;
          pad = p;
          mtime = max t u;
        }
  unfolding mark
  mark_c zero i n u true b s t h = refl
  mark_c zero i n u false b s t h = refl
  mark_c (suc zero) i n u x b s t h = refl
  mark_c (suc (suc p)) i n u x b s t h = absurd (omega arith)

  mark-gen_with :
      (i t u : ℕ) (b : Three Bool)
      → mark i (kind_of i (pad_for (length c))) (length (at i (shards c))) u (gen_with b t)
        ≡ gen_with (set_at i true b) (max t u)
  unfolding mark
  mark-gen_with zero t u b = ap (λ n. mark 0 (kind_of 0 0) n u (gen_with b t)) (length-shard_a c)
  mark-gen_with (suc zero) t u b =
      ap (λ n. mark 1 (kind_of 1 0) n u (gen_with b t)) (length-shard_b c)
  mark-gen_with (suc (suc i)) t u b =
      mark_c (pad_for (length c)) i (length (shards c).p2) u b.p2 b (gen_with b t).size t pad_small
      ∙ ap
          (λ n. record (gen_with (set_at 2 true b) (max t u)) {
            size = set_at 2 n (gen_with b t).size;
          })
          (length-shard_c c)

  abbrev pub none_seen : Three Bool
  none_seen = three false false false

  -- The generations of the file are none, or just the write.
  abbrev pub Has : Three Bool → Option Gens → Type 0
  Has b o = ((o ≡ none) × (b ≡ none_seen)) ⊎ ((t : ℕ) × (o ≡ some ((gen, gen_with b t) ∷ [])))

  -- What the name of a file of part `i` may be: no shard of ours, or the part's one of the write.
  abbrev pub IsOurs : ℕ → Option (Bytes × Bytes × Kind) → Bytes → Type 0
  IsOurs i none d = Unit
  IsOurs i (some (n, g, k)) d =
      n ≡ name → (g ≡ gen) × (k ≡ kind_of i (pad_for (length c))) × (d ≡ at i (shards c))

  abbrev pub NodeIsOurs : ℕ → Bytes × Node → Type 0
  NodeIsOurs i (n, folder t) = n ≢ name
  NodeIsOurs i (n, file d t) = IsOurs i (parse_shard n) d

  abbrev marked : ℕ → ℕ → Option Gens → Gens
  marked i u o =
      alter
        (λ g.
          mark i (kind_of i (pad_for (length c))) (length (at i (shards c))) u
            (generation_or_new gen g))
        gen (gens_or_new o)

  marked-Has :
      (i u : ℕ) (b : Three Bool) (o : Option Gens)
      → Has b o
      → Has (set_at i true b) (some (marked i u o))
  unfolding alter
  marked-Has i u b o (inl (e, s)) = inr (
    max 0 u,
    ap (λ o. some (marked i u o)) e
        ∙ (ap (λ g. some ((gen, g) ∷ [])) (mark-gen_with i 0 u none_seen)
            ∙ ap (λ b. some ((gen, gen_with (set_at i true b) (max 0 u)) ∷ [])) (sym s)),
  )
  marked-Has i u b o (inr (t, e)) = inr (
    max t u,
    ap (λ o. some (marked i u o)) e
        ∙ (again (bytes_eq gen gen) (bytes_eq_refl gen)
            ∙ ap (λ g. some ((gen, g) ∷ [])) (mark-gen_with i t u b)),
  )
    where
      mk : Generation → Generation
      mk g = mark i (kind_of i (pad_for (length c))) (length (at i (shards c))) u g

      again :
          (x : Bool)
          → x ≡ true
          → ◌≡◌ {A = Option Gens}
              (some (
                if x
                then (gen, mk (gen_with b t)) ∷ []
                else (gen, gen_with b t) ∷ (gen, mk (generation_or_new gen none)) ∷ []))
              (some ((gen, mk (gen_with b t)) ∷ []))
      again true e = refl
      again false e = cc

  part_of-kind_of : (i p : ℕ) → i < 3 → (part_of (kind_of i p) == i) ≡ true
  part_of-kind_of zero p h = refl
  part_of-kind_of (suc zero) p h = refl
  part_of-kind_of (suc (suc zero)) zero h = refl
  part_of-kind_of (suc (suc zero)) (suc p) h = refl
  part_of-kind_of (suc (suc (suc i))) p h = absurd (omega arith)

  abbrev pub ours : ℕ → Bytes × Bytes × Kind
  ours i = (name, gen, kind_of i (pad_for (length c)))

  lookup-add_ours :
      (i u : ℕ) (files : List (Bytes × Gens))
      → i < 3
      → lookup name (add_shard i (some (ours i)) (length (at i (shards c))) u files)
        ≡ some (marked i u (lookup name files))
  unfolding add_shard
  lookup-add_ours i u files h =
      let k = kind_of i (pad_for (length c)) in
      let f : Option Gens → Gens = λ m. marked i u m in
      ap (lookup name) (
        if_true (part_of k == i) (alter f name files) files
          (part_of-kind_of i (pad_for (length c)) h))
      ∙ (lookup-alter f name name files
          ∙ if_true (bytes_eq name name) (some (f (lookup name files))) (lookup name files)
              (bytes_eq_refl name))

  lookup-add_other :
      (i n u : ℕ) (m g : Bytes) (k : Kind) (files : List (Bytes × Gens))
      → bytes_eq m name ≡ false
      → lookup name (add_shard i (some (m, g, k)) n u files) ≡ lookup name files
  unfolding add_shard
  lookup-add_other i n u m g k files h =
      either (part_of k == i)
        (λ o. alter (λ x. mark i k n u (generation_or_new g x)) g (gens_or_new o))
    where
      either :
          (x : Bool) (f : Option Gens → Gens)
          → lookup name (if x then alter f m files else files) ≡ lookup name files
      either true f =
          lookup-alter f m name files
          ∙ if_false (bytes_eq m name) (some (f (lookup name files))) (lookup name files) h
      either false f = refl

  -- A shard of the write that is found.
  pub add_ours-Has :
      (i u : ℕ) (b : Three Bool) (m g d : Bytes) (k : Kind) (files : List (Bytes × Gens))
      → i < 3
      → m ≡ name
      → IsOurs i (some (m, g, k)) d
      → Has b (lookup name files)
      → Has (set_at i true b) (lookup name (add_shard i (some (m, g, k)) (length d) u files))
  add_ours-Has i u b m g d k files l e o h =
      let (eg, ek, ed) = o e in
      subst (Has (set_at i true b))
        (sym (
          ap (λ m. lookup name (add_shard i (some (m, g, k)) (length d) u files)) e
          ∙ (ap (λ g. lookup name (add_shard i (some (name, g, k)) (length d) u files)) eg
              ∙ (ap (λ k. lookup name (add_shard i (some (name, gen, k)) (length d) u files)) ek
                  ∙ (ap (λ d. lookup name (add_shard i (some (ours i)) (length d) u files)) ed
                      ∙ lookup-add_ours i u files l)))))
        (marked-Has i u b (lookup name files) h)

  abbrev pub Stays : ℕ → Three Bool → Option Gens → Type 0
  Stays i b o = Has b o ⊎ Has (set_at i true b) o

  pub add_shard-Stays :
      (i u : ℕ) (b : Three Bool) (p : Option (Bytes × Bytes × Kind)) (d : Bytes)
      (files : List (Bytes × Gens))
      → i < 3
      → IsOurs i p d
      → Has b (lookup name files)
      → Stays i b (lookup name (add_shard i p (length d) u files))
  unfolding add_shard
  add_shard-Stays i u b none d files l o h = inl h
  add_shard-Stays i u b (some (m, g, k)) d files l o h = elim (Bool-cases (bytes_eq m name)) [
    | inl e ↦ inr (add_ours-Has i u b m g d k files l ((bytes_eq_iff m name).0 e) o h)
    | inr e ↦ inl (subst (Has b) (sym (lookup-add_other i (length d) u m g k files e)) h)
  ]
