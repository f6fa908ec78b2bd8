-- ===== src/LocalSend/Names/Safe.antt =====
-- The segments of safePath, for internal/localsend/names.go.
use shfm.Common.{
  ℕ, zero, suc, ◌-◌, ◌≤◌, ◌<◌, ◌≡◌, ◌≢◌, refl, ap, Bool, false, ◌||◌, ◌&&◌, Option, none, some,
  List, [], ◌∷◌, ◌++◌, Bytes, codes, ltb, leb, length, drop, bytes_eq, bytes_eq_iff, All,
  All-append, Bool-cases, inl, inr, ◌⊎◌, arith, length-append, length-drop,
}
use shfm.Common.Int.{pos}
use shfm.Common.Split.{longer}
use shfm.Common.Utf8.{Rune, bytes_of, runes, runes-AllRunes, text_of}
use shfm.Common.Utf8.Whole.{
  AllRunes, cut_valid, cut_valid-near, length-cut_valid, All-cut_valid, length-bytes_of,
}
use shfm.Common.Utf8.Ranges.{All-runes, All-text_of}
use shfm.LocalSend.Names.Plain.{
  IsPlain, IsApart, replace_all-AllRunes, replace_all-AllPlain, error-IsApart, separator-IsApart,
  letters-IsPlain,
}
use shfm.LocalSend.Names.{
  max_name_bytes, max_depth, replace_all, only_spaces, checked, safe_segment, is_separator, pieces,
  kept_pieces, fields_func, add_segment, safe_segments, bounded, bounded_if, safe_path,
  truncate_name, cut_base, short_extension, last_index,
}

-- A name for one file or folder, that does not lead out of the folder it is made in.
pub record IsSafe (seg : Bytes) : Type 0 where
  pub fits : length seg ≤ max_name_bytes
  pub named : 1 ≤ length seg
  pub no_dot : seg ≢ codes "."
  pub no_dots : seg ≢ codes ".."
  pub plain : All IsPlain seg

-- the extension that is kept
pub short_extension-length : (name : Bytes) (i : Option ℕ) → length (short_extension name i) ≤ 16
unfolding short_extension
short_extension-length name none = omega arith
short_extension-length name (some i) = elim (Bool-cases (ltb 0 i && leb (length name - i) 16)) [
  | inl e ↦ rw e (ground (arith, length-drop i name))
  | inr e ↦ rw e (omega arith)
]

All-drop : (n : ℕ) (s : Bytes) → All IsPlain s → All IsPlain (drop n s)
All-drop zero s h = h
All-drop (suc n) [] h = tt
All-drop (suc n) (c ∷ s) h = All-drop n s h.1

short_extension-IsPlain :
    (name : Bytes) (i : Option ℕ) → All IsPlain name → All IsPlain (short_extension name i)
unfolding short_extension
short_extension-IsPlain name none h = tt
short_extension-IsPlain name (some i) h = elim (Bool-cases (ltb 0 i && leb (length name - i) 16)) [
  | inl e ↦ rw e (All-drop i name h)
  | inr e ↦ rw e tt
]

long-IsSafe : (s : Bytes) → length s ≤ max_name_bytes → 3 ≤ length s → All IsPlain s → IsSafe s
long-IsSafe s h l p = record {
  fits = h;
  named = omega arith;
  no_dot = λ e. omega (arith, ap length e);
  no_dots = λ e. omega (arith, ap length e);
  plain = p;
}

-- What a segment becomes: nothing, or a safe name.
Becomes : Option Bytes → Type 0
Becomes o = (seg : Bytes) × (o ≡ some seg) × ((seg ≡ []) ⊎ IsSafe seg)

cut_base-Becomes :
    (rs : List Rune) (ext : Bytes)
    → AllRunes rs
    → All IsPlain (text_of rs)
    → All IsPlain ext
    → length ext ≤ 16
    → max_name_bytes < length (text_of rs)
    → Becomes (cut_base (text_of rs) ext max_name_bytes)
unfolding cut_base Becomes
cut_base-Becomes rs ext hr hp he hl long =
    let n = max_name_bytes - length ext in
    let base = cut_valid n (text_of rs) in
    (
      base ++ ext,
      ground arith,
      inr (
          long-IsSafe (base ++ ext)
            (omega (arith, length-append base ext, length-cut_valid n (text_of rs)))
            (omega (arith, length-append base ext, cut_valid-near n rs hr (omega arith)))
            (All-append IsPlain base ext (All-cut_valid IsPlain n (text_of rs) hp) he)),
    )

truncate-Becomes :
    (rs : List Rune)
    → AllRunes rs
    → All IsPlain (text_of rs)
    → 1 ≤ length (text_of rs)
    → text_of rs ≢ codes "."
    → text_of rs ≢ codes ".."
    → Becomes (truncate_name (text_of rs) (pos max_name_bytes))
unfolding truncate_name Becomes
truncate-Becomes rs hr hp named d dd =
    let name = text_of rs in
    let i = last_index b'.' name in
    elim (Bool-cases (leb (length name) max_name_bytes)) [
      | inl e ↦ rw e (
        name,
        refl,
        inr (record { fits = ground arith; named = named; no_dot = d; no_dots = dd; plain = hp }),
      )
      | inr e ↦ rw e (
          cut_base-Becomes rs (short_extension name i) hr hp (short_extension-IsPlain name i hp)
            (short_extension-length name i) (ground arith))
    ]

named_text : (rs : List Rune) → only_spaces rs ≡ false → 1 ≤ length (text_of rs)
unfolding only_spaces text_of
named_text [] h = cc
named_text (r ∷ rs) h =
    omega (arith, length-append (bytes_of r) (text_of rs), (length-bytes_of r).0)

neither : {a b c : Bool} → (a || (b || c)) ≡ false → (a ≡ false) × (b ≡ false) × (c ≡ false)
neither {a} {b} {c} h = (ground arith, ground arith, ground arith)

ne_of : (s t : Bytes) → bytes_eq s t ≡ false → s ≢ t
ne_of s t h e = ground (arith, bytes_eq_iff s t)

checked-Becomes : (rs : List Rune) → AllRunes rs → All IsPlain (text_of rs) → Becomes (checked rs)
unfolding checked Becomes
checked-Becomes rs hr hp =
    let s = text_of rs in
    elim (Bool-cases (only_spaces rs || (bytes_eq s (codes ".") || bytes_eq s (codes "..")))) [
      | inl e ↦ rw e ([], refl, inl refl)
      | inr e ↦
          let (spaces, dot, dots) = neither e in
          rw e (
            truncate-Becomes rs hr hp (named_text rs spaces) (ne_of s (codes ".") dot)
              (ne_of s (codes "..") dots))
    ]

safe_segment-Becomes : (seg : Bytes) → All IsApart seg → Becomes (safe_segment seg)
unfolding safe_segment
safe_segment-Becomes seg h =
    let rs = runes seg in
    checked-Becomes (replace_all rs) (replace_all-AllRunes rs (runes-AllRunes seg)) (
      All-text_of IsPlain (replace_all rs)
        (replace_all-AllPlain rs (runes-AllRunes seg) (All-runes IsApart seg error-IsApart h)))

longer-IsApart :
    (c : ℕ) (ws : List Bytes) → IsApart c → All (All IsApart) ws → All (All IsApart) (longer c ws)
longer-IsApart c [] h k = ((h, tt), tt)
longer-IsApart c (w ∷ ws) h k = ((h, k.0), k.1)

pieces-IsApart : (s : Bytes) → All (All IsApart) (pieces s)
unfolding pieces
pieces-IsApart [] = (tt, tt)
pieces-IsApart (c ∷ s) = elim (Bool-cases (is_separator c)) [
  | inl e ↦ rw e (tt, pieces-IsApart s)
  | inr e ↦ rw e (longer-IsApart c (pieces s) (separator-IsApart c e) (pieces-IsApart s))
]

kept-IsApart : (ws : List Bytes) → All (All IsApart) ws → All (All IsApart) (kept_pieces ws)
unfolding kept_pieces
kept-IsApart [] h = tt
kept-IsApart ([] ∷ ws) h = kept-IsApart ws h.1
kept-IsApart ((c ∷ w) ∷ ws) h = (h.0, kept-IsApart ws h.1)

-- All segments there are, each safe.
AllSafe : Option (List Bytes) → Type 0
AllSafe o = (segs : List Bytes) × (o ≡ some segs) × All IsSafe segs

add_segment-AllSafe :
    (o : Option Bytes) (os : Option (List Bytes))
    → Becomes o
    → AllSafe os
    → AllSafe (add_segment o os)
unfolding Becomes AllSafe add_segment
add_segment-AllSafe o os (seg, e, inl q) (segs, f, h) = (segs, rw e (rw f (rw q refl)), h)
add_segment-AllSafe o os ([], e, inr q) (segs, f, h) = absurd (omega (arith, q.named))
add_segment-AllSafe o os (c ∷ s, e, inr q) (segs, f, h) = ((c ∷ s) ∷ segs, rw e (rw f refl), (q, h))

safe_segments-AllSafe : (ws : List Bytes) → All (All IsApart) ws → AllSafe (safe_segments ws)
unfolding safe_segments AllSafe
safe_segments-AllSafe [] h = ([], refl, tt)
safe_segments-AllSafe (w ∷ ws) h =
    add_segment-AllSafe (safe_segment w) (safe_segments ws) (safe_segment-Becomes w h.0)
      (safe_segments-AllSafe ws h.1)

All-drop_segments : (n : ℕ) (segs : List Bytes) → All IsSafe segs → All IsSafe (drop n segs)
All-drop_segments zero segs h = h
All-drop_segments (suc n) [] h = tt
All-drop_segments (suc n) (s ∷ segs) h = All-drop_segments n segs h.1

untitled-IsSafe : IsSafe (codes "untitled")
untitled-IsSafe =
    long-IsSafe (codes "untitled") (omega arith) (omega arith)
      (letters-IsPlain (codes "untitled") (ground arith))

-- A received path has one to 32 segments, and each is a safe name.
pub record IsSafePath (segs : List Bytes) : Type 0 where
  pub safe : All IsSafe segs
  pub some_segment : 1 ≤ length segs
  pub shallow : length segs ≤ max_depth

bounded-IsSafePath : (segs : List Bytes) → All IsSafe segs → IsSafePath (bounded segs)
unfolding bounded
bounded-IsSafePath [] h = record {
  safe = (untitled-IsSafe, tt);
  some_segment = omega arith;
  shallow = omega arith;
}
bounded-IsSafePath (s ∷ segs) h =
    let all = s ∷ segs in
    elim (Bool-cases (ltb max_depth (length all))) [
      | inl e ↦ rw e (record {
        safe = All-drop_segments (length all - max_depth) all h;
        some_segment = ground (arith, length-drop (length all - max_depth) all);
        shallow = omega (arith, length-drop (length all - max_depth) all);
      })
      | inr e ↦ rw e (record { safe = h; some_segment = omega arith; shallow = ground arith })
    ]

-- Any name that is received gives one to 32 segments, each of which names a file or a folder
-- inside the folder it is made in: 1 to 255 bytes, not "." or "..", and no separator, ASCII
-- control or delete among them. Cutting a long segment never goes out of range.
pub safe_path-IsSafePath :
    (name : Bytes) → (segs : List Bytes) × (safe_path name ≡ some segs) × IsSafePath segs
unfolding safe_path fields_func bounded_if AllSafe
safe_path-IsSafePath name =
    let ws = kept_pieces (pieces name) in
    let (segs, e, h) =
      safe_segments-AllSafe ws (kept-IsApart (pieces name) (pieces-IsApart name)) in
    (bounded segs, rw e refl, bounded-IsSafePath segs h)
