-- ===== src/Vault/Layout/Names.antt =====
-- The names of a vault with plain names, plainLayout of internal/vault/layout.go: file `n` is
-- `n.age` on the backend and folder `n` is `n`, in one folder of the vault.
pub mod Listed
use shfm.Common.{
  ℕ, zero, suc, ◌+◌, Bool, true, false, ◌&&◌, ◌||◌, not, Option, none, some, List, [], ◌∷◌, ◌++◌,
  Bytes, codes, length, ltb, bytes_eq, has_prefix, if◌then◌else◌, ◌⊎◌, inl, inr, ◌==◌,
}
use shfm.Backend.{
  Disk, M, pure, ◌>>=◌, ◌>>◌, Reply, ok, failed, not_supported, Written, written, not_opened,
  broken, stat, list, create, mkdir, remove, rename,
}
use shfm.Backend.Nodes.{Node, file, folder}
use shfm.Vault.Store.{exists, remove_if_exists, tmp_suffix, bak_suffix}
use shfm.Vault.Layout.{move_file}
use shfm.Vault.Layout.Sizes.{plain_size}

-- `is_root`: the folder is the vault's own.
pub record PlainLayout : Type 0 where
  pub locked : Bool
  pub is_root : Bool
  pub overhead : ℕ

-- ErrLocked, EINVAL, ErrNameTooLong, ErrReservedName, os.ErrExist, os.ErrNotExist, EISDIR,
-- ErrVaultInVault, ErrDamaged, and the errors of the backend.
pub data Fault : Type 0 where
  is_locked invalid name_too_long reserved_name exist not_exist is_directory : Fault
  vault_in_vault damaged : Fault
  backend : Reply → Fault

-- A call's error, if it has one.
abbrev pub Done : Type 0
Done = Option Fault

abbrev pub longest_name : ℕ
longest_name = 255

abbrev pub age : Bytes
age = codes ".age"

abbrev pub temp_prefix : Bytes
temp_prefix = codes ".shfm-"

abbrev config_file : Bytes
config_file = codes "vault.json"

abbrev identity_file : Bytes
identity_file = codes "identity.age"

abbrev recovery_file : Bytes
recovery_file = codes "RECOVERY.txt"

unfoldable pub blob_path : Bytes → Bytes
blob_path n = n ++ age

has_slash : Bytes → Bool
has_slash [] = false
has_slash (c ∷ s) = c == b'/' || has_slash s

unfoldable pub valid_name : Bytes → Bool
unfolding has_slash
valid_name n =
    not (bytes_eq n [] || (bytes_eq n (codes ".") || (bytes_eq n (codes "..") || has_slash n)))

unfoldable pub reserved_root : Bytes → Bool
reserved_root s =
    bytes_eq s config_file
    || (bytes_eq s identity_file
        || (bytes_eq s (identity_file ++ tmp_suffix)
            || (bytes_eq s (identity_file ++ bak_suffix) || bytes_eq s recovery_file)))

unfoldable pub stored_name : Bytes → Bool → Bytes
stored_name n dir = if dir then n else n ++ age

-- vaultSignature: the other of the two files
unfoldable pub vault_signature : Bytes → Option Bytes
vault_signature n =
    if bytes_eq n config_file
    then some identity_file
    else if bytes_eq n identity_file
    then some config_file
    else none

unfoldable pub temp_blob : Bytes → Bytes
temp_blob id = temp_prefix ++ (id ++ codes ".part")

-- strings.CutSuffix
longer_cut : ℕ → Option Bytes → Option Bytes
longer_cut c none = none
longer_cut c (some s) = some (c ∷ s)

unfoldable pub cut_suffix : Bytes → Bytes → Option Bytes
unfolding longer_cut
cut_suffix suffix [] = if bytes_eq [] suffix then some [] else none
cut_suffix suffix (c ∷ s) =
    let rest = longer_cut c (cut_suffix suffix s) in
    if bytes_eq (c ∷ s) suffix then some [] else rest

-- An entry of the vault: a folder, or a file with its size if that is known.
pub data PlainEntry : Type 0 where
  dir_entry : Bytes → ℕ → PlainEntry
  file_entry : Bytes → Option ℕ → ℕ → PlainEntry

module _ (l : PlainLayout) where
  -- A name that the vault can't store; `dir` says whether it is to be a folder's.
  unfoldable pub check : Bytes → Bool → Done
  unfolding valid_name stored_name reserved_root
  check n dir =
      if not (valid_name n)
      then some invalid
      else if ltb longest_name (length (stored_name n dir))
      then some name_too_long
      else if has_prefix n temp_prefix || l.is_root && reserved_root (stored_name n dir)
      then some reserved_name
      else none

  -- What the listing shows of a file whose name without `.age` is given.
  file_shown : Option Bytes → Bytes → ℕ → Option PlainEntry
  unfolding plain_size
  file_shown none c t = none
  file_shown (some []) c t = none
  file_shown (some (x ∷ n)) c t = some (file_entry (x ∷ n) (plain_size l.overhead (length c)) t)

  unfoldable pub entry_shown : Bytes → Node → Option PlainEntry
  unfolding file_shown reserved_root cut_suffix
  entry_shown s (folder t) =
      if has_prefix s temp_prefix || l.is_root && reserved_root s
      then none
      else some (dir_entry s t)
  entry_shown s (file c t) =
      if has_prefix s temp_prefix || l.is_root && reserved_root s
      then none
      else file_shown (cut_suffix age s) c t
