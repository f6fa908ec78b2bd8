-- ===== src/Backend/Nodes.antt =====
-- The nodes of a folder by name, in the order in which a listing gives them.
use shfm.Common.{
  ℕ, Bool, true, false, ◌≡◌, ◌≢◌, refl, Option, none, some, List, [], ◌∷◌, Bytes, bytes_eq,
  bytes_eq_iff, bytes_eq_refl, if◌then◌else◌, arith,
}

-- A file with its content and its modification time, or a folder.
pub data Node : Type 0 where
  file : Bytes → ℕ → Node
  folder : ℕ → Node

abbrev pub is_file : Node → Bool
is_file (file c t) = true
is_file (folder t) = false

unfoldable pub find : Bytes → List (Bytes × Node) → Option Node
find k [] = none
find k ((j, v) ∷ m) = if bytes_eq j k then some v else find k m

unfoldable pub put : Bytes → Node → List (Bytes × Node) → List (Bytes × Node)
put k v [] = (k, v) ∷ []
put k v ((j, w) ∷ m) = if bytes_eq j k then (k, v) ∷ m else (j, w) ∷ put k v m

unfoldable pub delete : Bytes → List (Bytes × Node) → List (Bytes × Node)
delete k [] = []
delete k ((j, w) ∷ m) = let rest = delete k m in if bytes_eq j k then rest else (j, w) ∷ rest

pub find-put :
    (k j : Bytes) (v : Node) (m : List (Bytes × Node))
    → find j (put k v m) ≡ (if bytes_eq k j then some v else find j m)
unfolding find put
find-put k j v [] = refl
find-put k j v ((i, w) ∷ m) =
    ground (arith, bytes_eq_iff k j, bytes_eq_iff i k, bytes_eq_iff i j, find-put k j v m)

pub find-delete :
    (k j : Bytes) (m : List (Bytes × Node))
    → find j (delete k m) ≡ (if bytes_eq k j then none else find j m)
unfolding find delete
find-delete k j [] = ground arith
find-delete k j ((i, w) ∷ m) =
    ground (arith, bytes_eq_iff k j, bytes_eq_iff i k, bytes_eq_iff i j, find-delete k j m)

pub find-put_self : (k : Bytes) (v : Node) (m : List (Bytes × Node)) → find k (put k v m) ≡ some v
find-put_self k v m = ground (arith, find-put k k v m, bytes_eq_refl k)

pub find-put_ne :
    {k j : Bytes} (v : Node) (m : List (Bytes × Node)) → k ≢ j → find j (put k v m) ≡ find j m
find-put_ne {k} {j} v m h = ground (arith, find-put k j v m, bytes_eq_iff k j)

pub find-delete_self : (k : Bytes) (m : List (Bytes × Node)) → find k (delete k m) ≡ none
find-delete_self k m = ground (arith, find-delete k k m, bytes_eq_refl k)

pub find-delete_ne :
    {k j : Bytes} (m : List (Bytes × Node)) → k ≢ j → find j (delete k m) ≡ find j m
find-delete_ne {k} {j} m h = ground (arith, find-delete k j m, bytes_eq_iff k j)

-- No two nodes of a folder have one name.
abbrev pub IsUnique : List (Bytes × Node) → Type 0
IsUnique [] = Unit
IsUnique ((k, v) ∷ m) = (find k m ≡ none) × IsUnique m

pub put-IsUnique :
    (k : Bytes) (v : Node) (m : List (Bytes × Node)) → IsUnique m → IsUnique (put k v m)
unfolding put
put-IsUnique k v [] h = (unfold find in refl, tt)
put-IsUnique k v ((j, w) ∷ m) h =
    ground (arith, bytes_eq_iff j k, bytes_eq_iff k j, find-put k j v m, put-IsUnique k v m h.1)

pub delete-IsUnique : (k : Bytes) (m : List (Bytes × Node)) → IsUnique m → IsUnique (delete k m)
unfolding delete
delete-IsUnique k [] h = tt
delete-IsUnique k ((j, w) ∷ m) h = ground (arith, find-delete k j m, delete-IsUnique k m h.1)
