-- ===== src/LocalSend/Receiving.antt =====
-- The search for a free name in internal/localsend/receive.go, in one folder.
pub mod Free
use shfm.Common.{
  ℕ, zero, suc, ◌+◌, Bool, false, ◌||◌, Option, none, some, List, [], ◌∷◌, Bytes, length, bytes_eq,
  if◌then◌else◌,
}
use shfm.LocalSend.Names.{numbered}

-- The names in the folder that the session has claimed, and those that Stat finds.
pub record TakenNames : Type 0 where
  pub claimed : List Bytes
  pub present : List Bytes

unfoldable pub is_in : Bytes → List Bytes → Bool
is_in n [] = false
is_in n (m ∷ ms) = bytes_eq n m || is_in n ms

unfoldable pub is_taken : TakenNames → Bytes → Bool
unfolding is_in
is_taken f n = is_in n f.claimed || is_in n f.present

-- `rest` is what the later numbers give.
unfoldable pub free_or : TakenNames → Option Bytes → Option Bytes → Option Bytes
unfolding is_taken
free_or f none rest = none
free_or f (some c) rest = if is_taken f c then rest else some c

unfoldable pub free_loop : ℕ → TakenNames → Bytes → ℕ → Option Bytes
unfolding free_or numbered
free_loop zero f name n = none
free_loop (suc fuel) f name n =
    let rest = free_loop fuel f name (n + 1) in free_or f (numbered name n) rest

-- One try for each name that is taken, and one more.
unfoldable pub free : TakenNames → Bytes → Option Bytes
unfolding is_taken free_loop
free f name =
    if is_taken f name
    then free_loop (suc (length f.claimed + length f.present)) f name 2
    else some name
