-- ===== src/Archive/Symlink.antt =====
-- SafeSymlink of internal/archive/walk.go: whether a link stays inside the folder that the archive is
-- extracted to.
pub mod Inside
pub mod Tests
use shfm.Common.{
  ℕ, zero, suc, Bool, true, false, ◌||◌, List, [], ◌∷◌, map, Bytes, codes, bytes_eq, ◌==◌,
  if◌then◌else◌,
}

abbrev slash : ℕ
slash = b'/'

-- strings.Count(s, "/")
unfoldable pub count_slash : Bytes → ℕ
count_slash [] = 0
count_slash (c ∷ s) = let n = count_slash s in if c == slash then suc n else n

add_front : ℕ → List Bytes → List Bytes
add_front c [] = (c ∷ []) ∷ []
add_front c (s ∷ ss) = (c ∷ s) ∷ ss

-- strings.Split(s, "/")
unfoldable pub split_slash : Bytes → List Bytes
unfolding add_front
split_slash [] = [] ∷ []
split_slash (c ∷ s) = let rest = split_slash s in if c == slash then [] ∷ rest else add_front c rest

-- The cases of the loop's switch: `..`, an empty component or `.`, and a name.
pub data Component : Type 0 where
  up same into : Component

unfoldable pub component_of : Bytes → Component
component_of c =
    if bytes_eq c (codes "..")
    then up
    else if bytes_eq c [] || bytes_eq c (codes ".")
    then same
    else into

-- The loop over the components, with `depth` and `climbing`.
pub climb_loop : List Component → ℕ → Bool → Bool
climb_loop [] depth climbing = true
climb_loop (up ∷ cs) depth false = false
climb_loop (up ∷ cs) zero true = false
climb_loop (up ∷ cs) (suc depth) true = climb_loop cs depth true
climb_loop (same ∷ cs) depth climbing = climb_loop cs depth climbing
climb_loop (into ∷ cs) depth climbing = climb_loop cs depth false

has_zero : Bytes → Bool
has_zero [] = false
has_zero (c ∷ s) = c == 0 || has_zero s

-- `target == ""`, path.IsAbs, or a zero byte
pub is_refused : Bytes → Bool
unfolding has_zero
is_refused [] = true
is_refused (c ∷ s) = c == slash || has_zero (c ∷ s)

unfoldable pub safe_symlink : Bytes → Bytes → Bool
unfolding is_refused climb_loop
safe_symlink name target =
    if is_refused target
    then false
    else climb_loop (map component_of (split_slash target)) (count_slash name) true
