-- ===== src/Vault/Layout/Plain/Tests.antt =====
-- A plain vault's folder with a file, and with two folders of which one looks like a file.
use shfm.Common.{
  ◌≡◌, ◌≤◌, refl, true, false, none, some, [], ◌∷◌, Bytes, codes, length, replicate, bytes_eq,
  has_prefix,
}
use shfm.Backend.{Disk, success, unsupported, refused, rename, read, remove}
use shfm.Backend.Nodes.{file, folder, find, put, delete}
use shfm.Vault.Store.Replace.{Holds}
use shfm.Vault.Layout.Sizes.{plain_size, cipher_size, plain_size-cipher_size}
use shfm.Vault.Layout.Names.{PlainLayout, check, stored_name, entry_shown, blob_path, longest_name}
use shfm.Vault.Layout.Plain.{write_plain, remove_plain, rename_plain}
use shfm.Vault.Layout.Names.Listed.{node_of, entry_of, entry_shown-stored_name}
use shfm.Vault.Layout.Plain.Writes.{write_plain-Holds}

abbrev vault : PlainLayout
vault = record { locked = false; is_root = true; overhead = 3 }

plain_size-cipher_size_example : plain_size 200 (cipher_size 200 70000) ≡ some 70000
plain_size-cipher_size_example = plain_size-cipher_size 200 70000

abbrev content : Bytes
content = replicate 21 7

two_bytes : length content ≡ cipher_size 3 2
unfolding cipher_size
two_bytes = refl

passes : check vault (codes "photos") false ≡ none
unfolding check bytes_eq has_prefix
passes = refl

entry_shown-stored_name_example :
    (entry_shown vault (stored_name (codes "photos") false) (node_of false content 5)
      ≡ some (entry_of false (codes "photos") 2 5))
    × (length (stored_name (codes "photos") false) ≤ longest_name)
entry_shown-stored_name_example =
    entry_shown-stored_name vault (codes "photos") content false 2 5 passes two_bytes

-- the backend can't rename
abbrev disk : Disk
disk = record {
  nodes = (codes "a.age", file (codes "old") 0) ∷ (codes "c.age", file (codes "w") 0) ∷ [];
  script = success ∷ success ∷ success ∷ success ∷ unsupported ∷ [];
  sized = false;
  clock = 1;
}

writes : (write_plain vault (codes "1") (codes "a") (codes "new") disk).0 ≡ none
unfolding write_plain bytes_eq has_prefix find put remove rename read delete
writes = refl

write_plain-Holds_example :
    Holds
      (blob_path (codes "a"))
      (codes "new")
      (write_plain vault (codes "1") (codes "a") (codes "new") disk).1
write_plain-Holds_example =
    write_plain-Holds vault (codes "1") (codes "a") (codes "new") disk writes

-- The old version is gone before the new one is in its place: neither is left.
abbrev failing : Disk
failing = record disk { script = success ∷ success ∷ success ∷ success ∷ refused ∷ [] }

both_lost :
    (write_plain vault (codes "1") (codes "a") (codes "new") failing).1.nodes
    ≡ (codes "c.age", file (codes "w") 0) ∷ []
unfolding write_plain bytes_eq has_prefix find put remove rename delete
both_lost = refl

-- Removing, or renaming, a folder takes the other whose name ends in ".age".
abbrev folders : Disk
folders = record disk {
  nodes = (codes "x", folder 0) ∷ (codes "x.age", folder 0) ∷ [];
  script = [];
}

wrong_removed : (remove_plain vault (codes "x") folders).1.nodes ≡ (codes "x", folder 0) ∷ []
unfolding remove_plain find bytes_eq delete
wrong_removed = refl

wrong_renamed :
    (rename_plain vault (codes "x") (codes "y") folders).1.nodes
    ≡ (codes "x", folder 0) ∷ (codes "y.age", folder 0) ∷ []
unfolding rename_plain bytes_eq find has_prefix put delete
wrong_renamed = refl
