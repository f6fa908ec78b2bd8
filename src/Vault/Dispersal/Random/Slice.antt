-- ===== src/Vault/Dispersal/Random/Slice.antt =====
-- ReadAt of internal/vault/dispersal.go at any offset.
use native.Mathlib.Decide.{dec_lt}
use shfm.Common.{
  ℕ, zero, suc, ◌+◌, ◌-◌, ◌≤◌, ◌<◌, ◌≡◌, sym, ap, ◌∙◌, ◌⊎◌, inl, inr, true, false, none, some, [],
  ◌++◌, append-nil, append_assoc, Bytes, length, take, drop, min, arith, length-take, length-drop,
  take-min, take-nil, take-append-drop, take-drop-append, drop-append_right, take-split, drop_all,
  drop-drop, ltb, leb, ◌||◌, Bool-cases, if◌then◌else◌,
}
use shfm.Vault.Dispersal.Generation.Laws.{len_a, len_b}
use shfm.Vault.Dispersal.Xor.{xor_onto, shards}
use shfm.Vault.Dispersal.Xor.Laws.{length-xor_onto}
use shfm.Vault.Dispersal.Random.{
  DispersedRandom, fill, limit, read_opened, read_shard, half_from, half, chunk, read_chunk,
  read_loop, read_inside, read_at, ◌>>=◌,
}
use shfm.Vault.Dispersal.Random.Window.{
  window, window-fill, window-slice, window_cancel, window_cancel_left,
}

-- The shards of content `c` are opened, all of them or all but one, with the lengths of its halves.
pub record IsOpened (r : DispersedRandom) (c : Bytes) : Type 0 where
  pub size_a : r.len_a ≡ len_a (length c)
  pub size_b : r.len_b ≡ len_b (length c)
  pub half_a :
      (r.shard.p0 ≡ some (shards c).p0)
      ⊎ ((r.shard.p0 ≡ none)
          × (r.shard.p1 ≡ some (shards c).p1)
          × (r.shard.p2 ≡ some (shards c).p2))
  pub half_b :
      (r.shard.p1 ≡ some (shards c).p1)
      ⊎ ((r.shard.p1 ≡ none)
          × (r.shard.p0 ≡ some (shards c).p0)
          × (r.shard.p2 ≡ some (shards c).p2))

read_opened-window :
    (s : Bytes) (n off : ℕ) → read_opened (some s) (length s) n off ≡ some (window n off s)
unfolding read_opened
read_opened-window s n off = elim (Bool-cases (leb (length s) off)) [
  | inl past ↦ rw past (
      ap some (
        ap (fill n) (sym (take-nil n))
        ∙ ap (λ t. fill n (take n t)) (sym (drop_all off s (ground arith)))
        ∙ sym (window-fill n off s)))
  | inr inside ↦ rw inside (
      ap some (
        ap (λ k. fill n (take (min n k) (drop off s))) (sym (length-drop off s))
        ∙ ap (fill n) (take-min n (drop off s))
        ∙ sym (window-fill n off s)))
]

module _ (r : DispersedRandom) (c : Bytes) (o : IsOpened r c) where
  abbrev a : Bytes
  a = (shards c).p0

  abbrev b : Bytes
  b = (shards c).p1

  length_a : length a ≡ len_a (length c)
  length_a = unfold shards in omega (arith, length-take (len_a (length c)) c)

  length_b : length b ≡ len_b (length c)
  length_b = unfold shards in omega (arith, length-drop (len_a (length c)) c)

  length_c : length (shards c).p2 ≡ len_a (length c)
  length_c =
      unfold shards in
      length-xor_onto (take (len_a (length c)) c) (drop (len_a (length c)) c) ∙ length_a

  read_a : (n off : ℕ) → r.shard.p0 ≡ some a → read_shard r 0 n off ≡ some (window n off a)
  unfolding read_shard limit
  read_a n off e =
      (λ i. read_opened (e i) ((o.size_a ∙ sym length_a) i) n off) ∙ read_opened-window a n off

  read_b : (n off : ℕ) → r.shard.p1 ≡ some b → read_shard r 1 n off ≡ some (window n off b)
  unfolding read_shard limit
  read_b n off e =
      (λ i. read_opened (e i) ((o.size_b ∙ sym length_b) i) n off) ∙ read_opened-window b n off

  read_c :
      (n off : ℕ)
      → r.shard.p2 ≡ some (shards c).p2
      → read_shard r 2 n off ≡ some (window n off (shards c).p2)
  unfolding read_shard limit
  read_c n off e =
      (λ i. read_opened (e i) ((o.size_a ∙ sym length_c) i) n off)
      ∙ read_opened-window (shards c).p2 n off

  b-le-a : length b ≤ length a
  b-le-a = omega (arith, length_a, length_b)

  cancel_windows :
      (n off : ℕ) → xor_onto (window n off (shards c).p2) (window n off b) ≡ window n off a
  cancel_windows n off = unfold shards in window_cancel n off a b b-le-a

  cancel_windows_left :
      (n off : ℕ) → xor_onto (window n off (shards c).p2) (window n off a) ≡ window n off b
  cancel_windows_left n off = unfold shards in window_cancel_left n off a b b-le-a

  half_zero : (n off : ℕ) → half r 0 n off ≡ some (window n off a)
  unfolding half half_from
  half_zero n off = elim o.half_a [
    | inl e ↦ ap (λ t. half_from t r 0 n off) e ∙ read_a n off e
    | inr (e, eb, ec) ↦
        ap (λ t. half_from t r 0 n off) e
        ∙ (λ i. read_c n off ec i >>= λ t. read_b n off eb i >>= λ u. some (xor_onto t u))
        ∙ ap some (cancel_windows n off)
  ]

  half_one : (n off : ℕ) → half r 1 n off ≡ some (window n off b)
  unfolding half half_from
  half_one n off = elim o.half_b [
    | inl e ↦ ap (λ t. half_from t r 1 n off) e ∙ read_b n off e
    | inr (e, ea, ec) ↦
        ap (λ t. half_from t r 1 n off) e
        ∙ (λ i. read_c n off ec i >>= λ t. read_a n off ea i >>= λ u. some (xor_onto t u))
        ∙ ap some (cancel_windows_left n off)
  ]

  whole : a ++ b ≡ c
  whole = unfold shards in take-append-drop (len_a (length c)) c

  -- a piece of the first half is a slice of the content, and so is one of the second
  slice_a : (n pos : ℕ) → pos + n ≤ length a → window n pos a ≡ take n (drop pos c)
  slice_a n pos h =
      window-slice n pos a h
      ∙ sym (take-drop-append n pos a b h)
      ∙ ap (λ t. take n (drop pos t)) whole

  slice_b : (n pos : ℕ) → pos + n ≤ length b → window n pos b ≡ take n (drop (length a + pos) c)
  slice_b n pos h =
      window-slice n pos b h
      ∙ ap (take n) (sym (drop-append_right pos a b))
      ∙ ap (λ t. take n (drop (length a + pos) t)) whole

  -- a round that starts in the first half, and one that starts behind it
  chunk_a :
      (n pos : ℕ)
      → pos + n ≤ r.len_a
      → pos < r.len_a
      → read_chunk r n pos ≡ some (take n (drop pos c))
  unfolding read_chunk
  chunk_a n pos h inside =
      let test : ltb pos r.len_a ≡ true = ground arith in
      ap (λ t. if t then half r 0 n pos else half r 1 n (pos - r.len_a)) test
      ∙ half_zero n pos
      ∙ ap some (slice_a n pos (omega (arith, o.size_a, length_a)))

  chunk_b :
      (n pos : ℕ)
      → pos + n ≤ r.len_a + r.len_b
      → r.len_a ≤ pos
      → read_chunk r n pos ≡ some (take n (drop pos c))
  unfolding read_chunk
  chunk_b n pos h behind =
      let test : ltb pos r.len_a ≡ false = ground arith in
      let back : length a + (pos - r.len_a) ≡ pos = omega (arith, o.size_a, length_a) in
      ap (λ t. if t then half r 0 n pos else half r 1 n (pos - r.len_a)) test
      ∙ half_one n (pos - r.len_a)
      ∙ ap some (
          slice_b n (pos - r.len_a) (omega (arith, o.size_b, length_b))
          ∙ ap (λ k. take n (drop k c)) back)

  round :
      (fuel l pos : ℕ) (done : Bytes) (n : ℕ) (x : Bytes)
      → chunk r (suc l) pos ≡ n
      → read_chunk r n pos ≡ some x
      → read_loop (suc fuel) r (suc l) pos done ≡ read_loop fuel r (suc l - n) (pos + n) (done ++ x)
  unfolding read_loop
  round fuel l pos done n x e q =
      (λ i. read_chunk r (e i) pos >>= λ t. read_loop fuel r (suc l - e i) (pos + e i) (done ++ t))
      ∙ (λ i. q i >>= λ t. read_loop fuel r (suc l - n) (pos + n) (done ++ t))

  at_end :
      (fuel left pos : ℕ) (done : Bytes)
      → left ≡ 0
      → read_loop (suc fuel) r left pos done ≡ some done
  unfolding read_loop
  at_end fuel left pos done e = ap (λ k. read_loop (suc fuel) r k pos done) e

  -- the last round
  finish :
      (fuel l pos : ℕ) (done : Bytes)
      → chunk r (suc l) pos ≡ suc l
      → read_chunk r (suc l) pos ≡ some (take (suc l) (drop pos c))
      → read_loop (suc (suc fuel)) r (suc l) pos done ≡ some (done ++ take (suc l) (drop pos c))
  finish fuel l pos done e q =
      round (suc fuel) l pos done (suc l) (take (suc l) (drop pos c)) e q
      ∙ at_end fuel (suc l - suc l) (pos + suc l) (done ++ take (suc l) (drop pos c)) (omega arith)

  loop_b :
      (fuel left pos : ℕ) (done : Bytes)
      → pos + left ≤ r.len_a + r.len_b
      → r.len_a ≤ pos
      → read_loop (suc (suc fuel)) r left pos done ≡ some (done ++ take left (drop pos c))
  loop_b fuel zero pos done h behind = unfold read_loop in ap some (sym (append-nil done))
  loop_b fuel (suc l) pos done h behind =
      finish fuel l pos done (unfold chunk in ground arith) (chunk_b (suc l) pos h behind)

  -- two slices side by side
  slices :
      (n left pos : ℕ)
      → n ≤ left
      → take n (drop pos c) ++ take (left - n) (drop (pos + n) c) ≡ take left (drop pos c)
  slices n left pos h =
      ap (λ t. take n (drop pos c) ++ take (left - n) t) (sym (drop-drop n pos c))
      ∙ sym (take-split n left (drop pos c) h)

  loop_a :
      (fuel left pos : ℕ) (done : Bytes)
      → pos + left ≤ r.len_a + r.len_b
      → read_loop (suc (suc (suc fuel))) r left pos done ≡ some (done ++ take left (drop pos c))
  loop_a fuel zero pos done h = unfold read_loop in ap some (sym (append-nil done))
  loop_a fuel (suc l) pos done h = elim (dec_lt pos r.len_a) [
    | no behind ↦ loop_b (suc fuel) (suc l) pos done h (omega arith)
    | yes inside ↦ elim (dec_lt (r.len_a - pos) (suc l)) [
      | no short ↦
          finish (suc fuel) l pos done (unfold chunk in ground arith)
            (chunk_a (suc l) pos (omega arith) inside)
      | yes long ↦
          let n = r.len_a - pos in
          round (suc (suc fuel)) l pos done n (take n (drop pos c)) (unfold chunk in ground arith)
            (chunk_a n pos (omega arith) inside)
          ∙ loop_b fuel (suc l - n) (pos + n) (done ++ take n (drop pos c)) (omega arith)
              (omega arith)
          ∙ ap some (
              append_assoc done (take n (drop pos c)) (take (suc l - n) (drop (pos + n) c))
              ∙ ap (λ t. done ++ t) (slices n (suc l) pos (omega arith)))
    ]
  ]

  total : r.len_a + r.len_b ≡ length c
  total = omega (arith, o.size_a, o.size_b)

  read_past :
      (want off : ℕ) → length c ≤ off → read_at r want off ≡ some (take want (drop off c), true)
  unfolding read_at
  read_past want off h =
      let past : leb (r.len_a + r.len_b) off ≡ true = ground (arith, total) in
      ap (λ t. read_inside t r want off) past
      ∙ ap (λ t. some (t, true)) (sym (take-nil want) ∙ ap (take want) (sym (drop_all off c h)))

  read_within :
      (want off : ℕ)
      → off < length c
      → read_at r want off ≡ some (take want (drop off c), ltb (length c - off) want)
  unfolding read_at
  read_within want off h =
      let n = min want (r.len_a + r.len_b - off) in
      let s = take n (drop off c) in
      let inside : leb (r.len_a + r.len_b) off ≡ false = ground (arith, total) in
      let cut : n ≡ min want (length (drop off c)) = omega (arith, total, length-drop off c) in
      let all : s ≡ take want (drop off c) =
        ap (λ k. take k (drop off c)) cut ∙ take-min want (drop off c) in
      let short : ltb (length s) want ≡ ltb (length c - off) want =
        ground (arith, total, length-take n (drop off c), length-drop off c) in
      ap (λ t. read_inside t r want off) inside
      ∙ (λ i. loop_a 0 n off [] (omega (arith, total)) i >>= λ b. some (b, ltb (length b) want))
      ∙ (λ i. some (all i, short i))

  -- Suppose that all shards of `c`, or all but one, are opened. A read of `want` bytes at `off`
  -- then ends in at most three rounds of its loop and gives the bytes of `c` from `off` on, as
  -- many as there are up to `want`, and `io.EOF` exactly if these are fewer than `want` or `off`
  -- is not inside the file.
  pub read_at-slice :
      (want off : ℕ)
      → read_at r want off
        ≡ some (take want (drop off c), leb (length c) off || ltb (length c - off) want)
  read_at-slice want off = elim (dec_lt off (length c)) [
    | yes inside ↦
        read_within want off inside ∙ ap (λ t. some (take want (drop off c), t)) (ground arith)
    | no past ↦
        read_past want off (omega arith) ∙ ap (λ t. some (take want (drop off c), t)) (ground arith)
  ]
