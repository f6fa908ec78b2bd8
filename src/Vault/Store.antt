-- ===== src/Vault/Store.antt =====
-- internal/vault/store.go: the vault's own small files and their replacement. All names are of one
-- folder, that of the file `p`.
pub mod Replace
pub mod ReadBack
pub mod Reading
pub mod Loss
pub mod Tests
use shfm.Common.{
  ℕ, Bool, true, false, Option, none, some, List, [], ◌∷◌, ◌++◌, Bytes, codes, length, ltb, is_some,
  if◌then◌else◌,
}
use shfm.Backend.{
  Disk, M, pure, ◌>>=◌, ◌>>◌, Reply, ok, failed, not_supported, Written, written, not_opened,
  broken, stat, read, create, remove, rename, if_unsupported, if_ok, ◌>>?◌,
}

abbrev pub max_small_file : ℕ
max_small_file = 67108864

abbrev pub tmp_suffix : Bytes
tmp_suffix = codes ".tmp"

abbrev pub bak_suffix : Bytes
bak_suffix = codes ".bak"

unfoldable pub exists : Bytes → M Bool
unfolding stat
exists p = do e ← stat p; pure (is_some e)

abbrev within_limit : Option Bytes → Option Bytes
within_limit none = none
within_limit (some c) = if ltb max_small_file (length c) then none else some c

unfoldable pub read_small : Bytes → M (Option Bytes)
read_small p = do c ← read p; pure (within_limit c)

abbrev reply_of : Written → Reply
reply_of written = ok
reply_of not_opened = failed
reply_of broken = failed

-- `Create` or `CreateSized` by the backend's wish, `Write`, `Close`: all in `create`.
unfoldable pub write_small : Bytes → Bytes → M Reply
write_small p c = do w ← create p c; pure (reply_of w)

unfoldable pub remove_if_exists : Bytes → M Reply
unfolding exists
remove_if_exists p = do e ← exists p; if e then remove p else pure ok

-- The copy that stands in for a rename.
copy_small : Option Bytes → Bytes → Bytes → M Reply
unfolding write_small
copy_small none from to = pure failed
copy_small (some c) from to = write_small to c >>? remove from

unfoldable pub rename_or_copy : Bytes → Bytes → M Reply
unfolding copy_small read_small
rename_or_copy from to = do
  r ← rename from to
  if_unsupported r (do c ← read_small from; copy_small c from to)

-- The old version becomes `p.bak`, or goes.
set_aside : Bytes → Bool → M Reply
unfolding remove_if_exists rename_or_copy
set_aside p true = remove_if_exists (p ++ bak_suffix) >>? rename_or_copy p (p ++ bak_suffix)
set_aside p false = remove p

set_aside_if : Bool → Bytes → Bool → M Reply
unfolding set_aside
set_aside_if true p keep_bak = set_aside p keep_bak
set_aside_if false p keep_bak = pure ok

-- After `p.tmp` is written.
put_in_place : Bytes → Bool → M Reply
unfolding exists set_aside_if rename_or_copy
put_in_place p keep_bak = do
  e ← exists p
  set_aside_if e p keep_bak >>? rename_or_copy (p ++ tmp_suffix) p

-- A failed write of `p.tmp` is cleaned up, and its error returned.
after_write : Reply → Bytes → Bool → M Reply
unfolding put_in_place remove_if_exists
after_write ok p keep_bak = put_in_place p keep_bak
after_write r p keep_bak = do remove_if_exists (p ++ tmp_suffix); pure failed

unfoldable pub replace : Bytes → Bytes → Bool → M Reply
unfolding write_small after_write
replace p c keep_bak = do r ← write_small (p ++ tmp_suffix) c; after_write r p keep_bak

-- The outcome of a read: what was decoded, or the first error of a version that exists.
pub data Unread : Type 0 where
  read_failed undecodable : Unread

pub data Loaded {ℓ} (A : Type ℓ) : Type ℓ where
  loaded : A → Loaded A
  unreadable : Unread → Loaded A
  not_exist : Loaded A

abbrev or_first : Option Unread → Unread → Option Unread
or_first none e = some e
or_first (some f) e = some f

abbrev give_up {ℓ} : {A : Type ℓ} → Option Unread → Loaded A
give_up none = not_exist
give_up (some e) = unreadable e

-- `decode` is the caller's: for the vault, age decryption and JSON.
module _ {A : Type 0} (decode : Bytes → Option A) where
  decoded : Option A → (Option Unread → M (Loaded A)) → Option Unread → M (Loaded A)
  decoded (some a) others first = pure (loaded a)
  decoded none others first = others (or_first first undecodable)

  -- One round of the loop, on the answer of `readSmall`; `others` is the rest of the loop.
  try_version : Option Bytes → Bytes → (Option Unread → M (Loaded A)) → Option Unread → M (Loaded A)
  unfolding decoded
  try_version (some b) q others first = decoded (decode b) others first
  try_version none q others first = do
    e ← exists q
    others (if e then or_first first read_failed else first)

  pub versions_loop : List Bytes → Option Unread → M (Loaded A)
  unfolding try_version
  versions_loop [] first = pure (give_up first)
  versions_loop (q ∷ qs) first = do c ← read_small q; try_version c q (versions_loop qs) first

  unfoldable pub read_small_versions : Bytes → Bool → M (Loaded A)
  unfolding versions_loop
  read_small_versions p with_bak =
      versions_loop (p ∷ (p ++ tmp_suffix) ∷ (if with_bak then (p ++ bak_suffix) ∷ [] else [])) none
