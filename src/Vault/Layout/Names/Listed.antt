-- ===== src/Vault/Layout/Names/Listed.antt =====
-- The names that a plain vault stores, for plainLayout of internal/vault/layout.go.
use shfm.Common.{
  ℕ, ◌≤◌, ◌≡◌, ◌≢◌, refl, ap, ◌∙◌, Bool, true, false, ◌&&◌, ◌||◌, not, none, some, [], ◌∷◌, ◌++◌,
  Bytes, codes, length, ltb, bytes_eq, bytes_eq_refl, bytes_eq-ne, has_prefix, if◌then◌else◌, ◌==◌,
  All, arith, length-append,
}
use shfm.Common.Split.{is_free, is_free-All}
use shfm.Backend.Nodes.{Node, file, folder}
use shfm.Vault.Layout.Sizes.{cipher_size, plain_size, plain_size-cipher_size}
use shfm.Vault.Layout.Names.{
  PlainLayout, PlainEntry, dir_entry, file_entry, age, temp_prefix, longest_name, check,
  entry_shown, file_shown, stored_name, cut_suffix, longer_cut, valid_name, reserved_root, invalid,
  name_too_long, reserved_name,
}

-- A dot ends what a prefix without one can take.
prefix-append_dot :
    (n s p : Bytes)
    → All (λ c. c ≢ b'.') p
    → has_prefix n p ≡ false
    → has_prefix (n ++ b'.' ∷ s) p ≡ false
unfolding has_prefix
prefix-append_dot n s [] h e = cc
prefix-append_dot [] s (c ∷ p) h e = ground arith
prefix-append_dot (x ∷ n) s (c ∷ p) h e = ground (arith, prefix-append_dot n s p h.1)

rest-free : All (λ c. c ≢ b'.') (codes "shfm-")
unfolding is_free
rest-free = is_free-All b'.' (codes "shfm-") refl

and_tail : (b t u : Bool) → (t ≡ false → u ≡ false) → (b && t) ≡ false → (b && u) ≡ false
and_tail true t u h e = h e
and_tail false t u h e = refl

pub prefix-age :
    (n : Bytes)
    → bytes_eq n [] ≡ false
    → has_prefix n temp_prefix ≡ false
    → has_prefix (n ++ age) temp_prefix ≡ false
unfolding has_prefix bytes_eq
prefix-age [] h e = cc
prefix-age (x ∷ n) h e =
    and_tail (x == b'.') (has_prefix n (codes "shfm-")) (has_prefix (n ++ age) (codes "shfm-"))
      (prefix-append_dot n (codes "age") (codes "shfm-") rest-free) e

longer_ne : (c : ℕ) (n s : Bytes) → bytes_eq ((c ∷ n) ++ s) s ≡ false
longer_ne c n s =
    bytes_eq-ne ((c ∷ n) ++ s) s (λ e. omega (arith, ap length e, length-append (c ∷ n) s))

cut-append : (n s : Bytes) → cut_suffix s (n ++ s) ≡ some n
unfolding cut_suffix longer_cut bytes_eq
cut-append [] [] = refl
cut-append [] (c ∷ s) = rw (bytes_eq_refl (c ∷ s)) refl
cut-append (c ∷ n) s = rw (longer_ne c n s) (rw (cut-append n s) refl)

-- What a check that passes says of a name.
pub record IsStored (l : PlainLayout) (n : Bytes) (dir : Bool) : Type 0 where
  pub named : bytes_eq n [] ≡ false
  pub no_temp : has_prefix n temp_prefix ≡ false
  pub not_reserved : (l.is_root && reserved_root (stored_name n dir)) ≡ false
  pub fits : length (stored_name n dir) ≤ longest_name

passed :
    (v long temp reserved : Bool)
    → (if not v
        then some invalid
        else if long
        then some name_too_long
        else if temp || reserved
        then some reserved_name
        else none)
      ≡ none
    → (v ≡ true) × (long ≡ false) × (temp ≡ false) × (reserved ≡ false)
passed v long temp reserved h = (ground arith, ground arith, ground arith, ground arith)

not_empty : (a b : Bool) → not (a || b) ≡ true → a ≡ false
not_empty a b h = ground arith

pub check-IsStored :
    (l : PlainLayout) (n : Bytes) (dir : Bool) → check l n dir ≡ none → IsStored l n dir
unfolding check valid_name
check-IsStored l n dir h =
    let (v, long, temp, reserved) =
      passed (valid_name n) (ltb longest_name (length (stored_name n dir)))
        (has_prefix n temp_prefix) (l.is_root && reserved_root (stored_name n dir)) h in
    record {
      named = not_empty (bytes_eq n []) _ v;
      no_temp = temp;
      not_reserved = reserved;
      fits = ground arith;
    }

-- A folder, or a file of content `c`, and the entry that stands for it.
abbrev pub node_of : Bool → Bytes → ℕ → Node
node_of true c t = folder t
node_of false c t = file c t

abbrev pub entry_of : Bool → Bytes → ℕ → ℕ → PlainEntry
entry_of true n m t = dir_entry n t
entry_of false n m t = file_entry n (some m) t

shown_file :
    (l : PlainLayout) (n c : Bytes) (m t : ℕ)
    → bytes_eq n [] ≡ false
    → length c ≡ cipher_size l.overhead m
    → file_shown l (some n) c t ≡ some (file_entry n (some m) t)
unfolding file_shown bytes_eq
shown_file l [] c m t h e = cc
shown_file l (x ∷ n) c m t h e =
    ap (λ k. some (file_entry (x ∷ n) (plain_size l.overhead k) t)) e
    ∙ ap (λ o. some (file_entry (x ∷ n) o t)) (plain_size-cipher_size l.overhead m)

-- What passes the check has a stored name of at most 255 bytes, and the listing shows it under
-- its own name, a file with the size of its plaintext: no file or folder of the vault is hidden
-- as one of the vault's own or as one that is being written.
pub entry_shown-stored_name :
    (l : PlainLayout) (n c : Bytes) (dir : Bool) (m t : ℕ)
    → check l n dir ≡ none
    → length c ≡ cipher_size l.overhead m
    → (entry_shown l (stored_name n dir) (node_of dir c t) ≡ some (entry_of dir n m t))
      × (length (stored_name n dir) ≤ longest_name)
unfolding entry_shown stored_name
entry_shown-stored_name l n c true m t h e =
    let s = check-IsStored l n true h in (rw s.no_temp (rw s.not_reserved refl), s.fits)
entry_shown-stored_name l n c false m t h e =
    let s = check-IsStored l n false h in
    (
      rw (prefix-age n s.named s.no_temp)
          (rw s.not_reserved (rw (cut-append n age) (shown_file l n c m t s.named e))),
      s.fits,
    )
