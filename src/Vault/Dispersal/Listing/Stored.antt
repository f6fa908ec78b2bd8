-- ===== src/Vault/Dispersal/Listing/Stored.antt =====
-- What list and lookup of internal/vault/dispersal.go find of a file whose shards are those of one write.
use mathlib.Core.Path.{subst}
use shfm.Common.{
  ℕ, zero, suc, ◌<◌, ◌≤◌, ◌≡◌, refl, sym, ap, ◌∙◌, ◌⊎◌, inl, inr, Bool, true, none, some, List, [],
  ◌∷◌, Bytes, All, length, arith, if◌then◌else◌, bytes_eq, bytes_eq_iff, bytes_eq-ne, Bool-cases,
}
use shfm.Common.Dict.{lookup, lookup-alter}
use shfm.Backend.Nodes.{find, Node, file, folder}
use shfm.Vault.Dispersal.Names.{parse_shard}
use shfm.Vault.Dispersal.Names.RoundTrip.{kind_of}
use shfm.Vault.Dispersal.Generation.{Three, set_at, count}
use shfm.Vault.Dispersal.Generation.Laws.{IsWrite, IsWrite-sizes, len_a, len_b, pad_for}
use shfm.Vault.Dispersal.Listing.{
  Listing, dir, generation, lookup_entry, found_file, found_dir, best_found, best, best_loop,
  choose, is_readable, add_shard, add_dir, add_file, add_entry, add_entries,
}
use shfm.Vault.Dispersal.Listing.Ours.{
  IsOurs, NodeIsOurs, Has, gen_with, ours, if_true, if_false, add_ours-Has, add_shard-Stays,
}

module _ (name gen c : Bytes) where
  -- The listing so far shows of the file's name the shards `b` of the write and no folder.
  abbrev pub Shows : Three Bool → Listing → Type 0
  Shows b l = Has name gen c b (lookup name l.files) × (lookup name l.dirs ≡ none)

  entry-Shows :
      (i : ℕ) (b : Three Bool) (e : Bytes × Node) (l : Listing)
      → i < 3
      → NodeIsOurs name gen c i e
      → Shows b l
      → Shows b (add_entry i e l) ⊎ Shows (set_at i true b) (add_entry i e l)
  unfolding add_entry add_file
  entry-Shows i b (n, folder t) l h o (s, f) = inl (
    s,
    lookup-alter (add_dir t) n name l.dirs
        ∙ (if_false (bytes_eq n name) (some (add_dir t (lookup name l.dirs))) (lookup name l.dirs)
              (bytes_eq-ne n name o)
            ∙ f),
  )
  entry-Shows i b (n, file d t) l h o (s, f) =
      elim (add_shard-Stays name gen c i t b (parse_shard n) d l.files h o s) [
        | inl q ↦ inl (q, f)
        | inr q ↦ inr (q, f)
      ]

  -- Nothing more is seen on a part whose shard was seen.
  entries-Shows :
      (i : ℕ) (b : Three Bool) (m : List (Bytes × Node)) (l : Listing)
      → i < 3
      → set_at i true b ≡ b
      → All (NodeIsOurs name gen c i) m
      → Shows b l
      → Shows b (add_entries i m l)
  unfolding add_entries
  entries-Shows i b [] l h e o s = s
  entries-Shows i b (n ∷ m) l h e (p, o) s =
      entries-Shows i b m (add_entry i n l) h e o (elim (entry-Shows i b n l h p s) [
        | inl q ↦ q
        | inr q ↦ subst (λ b. Shows b (add_entry i n l)) e q
      ])

  set_twice : (i : ℕ) (b : Three Bool) → set_at i true (set_at i true b) ≡ set_at i true b
  set_twice zero b = refl
  set_twice (suc zero) b = refl
  set_twice (suc (suc i)) b = refl

  shard-Shows :
      (i t : ℕ) (b : Three Bool) (n d : Bytes) (l : Listing)
      → i < 3
      → parse_shard n ≡ some (ours name gen c i)
      → NodeIsOurs name gen c i (n, file d t)
      → Shows b l
      → Shows (set_at i true b) (add_entry i (n, file d t) l)
  unfolding add_entry add_file
  shard-Shows i t b n d l h e o (s, f) = (
    subst (λ p. Has name gen c (set_at i true b) (lookup name (add_shard i p (length d) t l.files)))
        (sym e)
        (add_ours-Has name gen c i t b name gen d (kind_of i (pad_for (length c))) l.files h refl
          (subst (λ p. IsOurs name gen c i p d) e o) s),
    f,
  )

  -- A part that has its shard.
  pub part-Shows :
      (i t : ℕ) (b : Three Bool) (k d : Bytes) (m : List (Bytes × Node)) (l : Listing)
      → i < 3
      → parse_shard k ≡ some (ours name gen c i)
      → find k m ≡ some (file d t)
      → All (NodeIsOurs name gen c i) m
      → Shows b l
      → Shows (set_at i true b) (add_entries i m l)
  unfolding add_entries find
  part-Shows i t b k d [] l h e q o s = cc
  part-Shows i t b k d ((n, v) ∷ m) l h e q (p, o) s = elim (Bool-cases (bytes_eq n k)) [
    | inl y ↦
        let v' : v ≡ file d t = ground arith in
        let n' : parse_shard n ≡ some (ours name gen c i) =
          ap parse_shard ((bytes_eq_iff n k).0 y) ∙ e in
        entries-Shows i (set_at i true b) m (add_entry i (n, v) l) h (set_twice i b) o (
          subst (λ v. Shows (set_at i true b) (add_entry i (n, v) l)) (sym v')
            (shard-Shows i t b n d l h n' (subst (λ v. NodeIsOurs name gen c i (n, v)) v' p) s))
    | inr y ↦
        let q' : find k m ≡ some (file d t) = ground arith in
        elim (entry-Shows i b (n, v) l h p s) [
          | inl r ↦ part-Shows i t b k d m (add_entry i (n, v) l) h e q' o r
          | inr r ↦ entries-Shows i (set_at i true b) m (add_entry i (n, v) l) h (set_twice i b) o r
        ]
  ]

  pub gen_with-IsWrite : (b : Three Bool) (t : ℕ) → IsWrite (length c) (gen_with name gen c b t)
  gen_with-IsWrite b t = record {
    size_a = λ e. if_true b.p0 (len_a (length c)) 0 e;
    size_b = λ e. if_true b.p1 (len_b (length c)) 0 e;
    size_c = λ e. if_true b.p2 (len_a (length c)) 0 e;
    padding = λ e. if_true b.p2 (pad_for (length c)) 0 e;
  }

  write-readable :
      (b : Three Bool) (t : ℕ)
      → 2 ≤ count (gen_with name gen c b t)
      → is_readable (gen_with name gen c b t) ≡ true
  unfolding is_readable
  write-readable b t two =
      let k = (IsWrite-sizes (length c) (gen_with name gen c b t) (gen_with-IsWrite b t) two).0 in
      ground arith

  -- lookup finds the write, if two of its shards or three were seen.
  pub lookup_entry-gen_with :
      (b : Three Bool) (l : Listing)
      → Shows b l
      → ((t : ℕ) → 2 ≤ count (gen_with name gen c b t))
      → (t : ℕ) × (lookup_entry l name ≡ generation (gen_with name gen c b t))
  unfolding lookup_entry found_dir found_file best_found best best_loop choose count
  lookup_entry-gen_with b l (inl (e, s), f) two =
      let q : 2 ≤ 0 = subst (λ b. 2 ≤ count (gen_with name gen c b 0)) s (two 0) in
      absurd (omega arith)
  lookup_entry-gen_with b l (inr (t, e), f) two =
      let g = gen_with name gen c b t in
      (
        t,
        ap (λ o. if found_dir o then dir else found_file (lookup name l.files)) f
            ∙ (ap found_file e
                ∙ ap best_found
                    (if_true (is_readable g) (some g) none (write-readable b t (two t)))),
      )
