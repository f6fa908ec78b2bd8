-- ===== src/Backend.antt =====
-- One folder of a backend (internal/vfs/vfs.go, the FileSystem interface), as the vault uses it:
-- nodes by name, and a script that says how each call to the backend goes. Backends differ and
-- fail in many ways, which the script stands for.
pub mod Nodes
pub mod Frame
pub mod Rules
use shfm.Common.{
  ℕ, zero, suc, ◌+◌, Bool, true, false, ◌&&◌, Option, none, some, List, [], ◌∷◌, Bytes, take,
  is_some, if◌then◌else◌,
}
use shfm.Backend.Nodes.{Node, file, folder, find, put, delete, is_file}

-- How one call goes. `lost` does its work and still reports an error; `cut n` is a write that
-- stops after `n` bytes; `unsupported` is `vfs.ErrNotSupported`.
pub data Outcome : Type 0 where
  success lost refused unsupported : Outcome
  cut : ℕ → Outcome

-- `sized` says that the backend wants a file's size first (vfs.SizedCreator). An exhausted script
-- succeeds. `clock` dates what is written.
pub record Disk : Type 0 where
  pub nodes : List (Bytes × Node)
  pub script : List Outcome
  pub sized : Bool
  pub clock : ℕ

-- An error that matters to the callers is told apart: `not_supported`.
pub data Reply : Type 0 where
  ok failed not_supported : Reply

-- The three ways in which writing a whole file ends: all of it, no file opened, or an error after.
pub data Written : Type 0 where
  written not_opened broken : Written

abbrev pub M : Type 0 → Type 0
M A = Disk → A × Disk

abbrev pub pure : {A : Type 0} → A → M A
pure a d = (a, d)

infixl 5 ◌>>=◌ ◌>>◌
abbrev pub ◌>>=◌ : {A B : Type 0} → M A → (A → M B) → M B
◌>>=◌ m f d = let (a, d') = m d in f a d'

abbrev pub ◌>>◌ : {A B : Type 0} → M A → M B → M B
m >> k = m >>= λ _. k

abbrev pub first_outcome : List Outcome → Outcome
first_outcome [] = success
first_outcome (o ∷ s) = o

abbrev pub rest_of : List Outcome → List Outcome
rest_of [] = []
rest_of (o ∷ s) = s

-- One more call: its outcome is taken from the script.
abbrev pub next : Disk → Disk
next d = record d { script = rest_of d.script }

abbrev pub outcome : Disk → Outcome
outcome d = first_outcome d.script

-- `Stat` answers with an entry, or with an error for whatever reason.
unfoldable pub stat : Bytes → M (Option Node)
stat n d = elim (outcome d) [ success ↦ (find n d.nodes, next d) | _ ↦ (none, next d) ]

-- `Open` and a read to the end.
unfoldable pub read : Bytes → M (Option Bytes)
read n d = elim (outcome d) [
  | success ↦ (elim (find n d.nodes) [ some (file c t) ↦ some c | _ ↦ none ], next d)
  | _ ↦ (none, next d)
]

-- The folder after file `n` got content `c`.
abbrev pub with_file : Bytes → Bytes → Disk → Disk
with_file n c d = record d {
  nodes = put n (file c d.clock) d.nodes;
  script = rest_of d.script;
  clock = d.clock + 1;
}

-- The folder after a folder was made in it.
abbrev with_folder : Bytes → Disk → Disk
with_folder n d = record d {
  nodes = put n (folder d.clock) d.nodes;
  script = rest_of d.script;
  clock = d.clock + 1;
}

create_as : Outcome → Bytes → Bytes → M Written
create_as success n c d = (written, with_file n c d)
create_as lost n c d = (broken, with_file n c d)
create_as refused n c d = (not_opened, next d)
create_as unsupported n c d = (not_opened, next d)
create_as (cut k) n c d = (broken, with_file n (take k c) d)

-- `Create` or `CreateSized`, the writes and `Close`.
unfoldable pub create : Bytes → Bytes → M Written
unfolding create_as
create n c d = create_as (outcome d) n c d

-- The folder after `n` is gone.
abbrev pub without : Bytes → Disk → Disk
without n d = record d { nodes = delete n d.nodes; script = rest_of d.script }

mkdir_as : Outcome → Bytes → M Reply
mkdir_as success n d = if is_some (find n d.nodes) then (failed, next d) else (ok, with_folder n d)
mkdir_as lost n d = (failed, with_folder n d)
mkdir_as _ n d = (failed, next d)

-- `Mkdir`, of a name that is not there.
unfoldable pub mkdir : Bytes → M Reply
unfolding mkdir_as
mkdir n d = mkdir_as (outcome d) n d

remove_as : Outcome → Bytes → M Reply
remove_as success n d = if is_some (find n d.nodes) then (ok, without n d) else (failed, next d)
remove_as lost n d = (failed, without n d)
remove_as _ n d = (failed, next d)

unfoldable pub remove : Bytes → M Reply
unfolding remove_as
remove n d = remove_as (outcome d) n d

-- The folder after the node `v`, found at `from`, stands at `to`.
abbrev pub moved : Bytes → Bytes → Node → Disk → Disk
moved from to v d = record d { nodes = put to v (delete from d.nodes); script = rest_of d.script }

move_found : Option Node → Bytes → Bytes → Reply → M Reply
move_found none from to r d = (failed, next d)
move_found (some v) from to r d = (r, moved from to v d)

rename_as : Outcome → Bytes → Bytes → M Reply
unfolding move_found
rename_as success from to d = move_found (find from d.nodes) from to ok d
rename_as lost from to d = move_found (find from d.nodes) from to failed d
rename_as unsupported from to d = (not_supported, next d)
rename_as _ from to d = (failed, next d)

-- A name that a node has already is taken over, as rename(2) does.
unfoldable pub rename : Bytes → Bytes → M Reply
unfolding rename_as
rename from to d = rename_as (outcome d) from to d

-- `if err != nil { return err }` between two steps.
abbrev pub if_ok : Reply → M Reply → M Reply
if_ok ok k = k
if_ok failed k = pure failed
if_ok not_supported k = pure not_supported

-- The fallback where a backend does not support a call.
abbrev pub if_unsupported : Reply → M Reply → M Reply
if_unsupported ok k = pure ok
if_unsupported failed k = pure failed
if_unsupported not_supported k = k

infixl 5 ◌>>?◌
abbrev pub ◌>>?◌ : M Reply → M Reply → M Reply
m >>? k = do r ← m; if_ok r k

-- `List` of the folder.
unfoldable pub list : M (Option (List (Bytes × Node)))
list d = elim (outcome d) [ success ↦ (some d.nodes, next d) | _ ↦ (none, next d) ]
