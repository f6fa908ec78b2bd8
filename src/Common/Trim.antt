-- ===== src/Common/Trim.antt =====
-- strings.TrimSpace, on the runes of a text with the bytes that each was read from.
use Prim.Native.Nat.{ℕ, zero, suc}
use mathlib.Core.Bool.{Bool, true, false, ◌&&◌, ◌||◌}
use mathlib.Core.List.{List, [], ◌∷◌, ◌++◌, reverse}
use shfm.Common.Tests.{◌==◌, leb}
use shfm.Common.Lists.{length}
use shfm.Common.Text.{Bytes, bytes_eq}
use shfm.Common.Utf8.{Rune, rune1, rune2, rune3, rune4, bytes_of, Front, good, bad, front, after}

-- unicode.IsSpace
unfoldable pub is_space : Rune → Bool
is_space (rune1 c) = leb 9 c && leb c 13 || c == 32
is_space (rune2 a b) = a == 194 && (b == 133 || b == 160)
is_space (rune3 a b c) =
    bytes_eq (a ∷ b ∷ c ∷ []) (225 ∷ 154 ∷ 128 ∷ [])
    || (a == 226
          && (b == 128 && (leb 128 c && leb c 138 || (c == 168 || (c == 169 || c == 175)))
              || b == 129 && c == 159)
        || bytes_eq (a ∷ b ∷ c ∷ []) (227 ∷ 128 ∷ 128 ∷ []))
is_space (rune4 a b c d) = false

-- The rune at the front, as the bytes it was read from.
abbrev raw_of : ℕ → Front → Bytes
raw_of a (good r s) = bytes_of r
raw_of a (bad s) = a ∷ []

abbrev space_at : Front → Bool
space_at (good r s) = is_space r
space_at (bad s) = false

-- Each rune's bytes, and whether it is a space.
unfoldable pub chunks : ℕ → Bytes → List (Bytes × Bool)
unfolding front is_space
chunks zero s = []
chunks (suc n) [] = []
chunks (suc n) (a ∷ s) = let f = front a s in (raw_of a f, space_at f) ∷ chunks n (after f)

unfoldable pub drop_spaces : List (Bytes × Bool) → List (Bytes × Bool)
drop_spaces [] = []
drop_spaces ((raw, true) ∷ cs) = drop_spaces cs
drop_spaces ((raw, false) ∷ cs) = (raw, false) ∷ cs

unfoldable pub raw_text : List (Bytes × Bool) → Bytes
raw_text [] = []
raw_text ((raw, space) ∷ cs) = raw ++ raw_text cs

unfoldable pub trim_space : Bytes → Bytes
unfolding chunks drop_spaces raw_text
trim_space s = raw_text (reverse (drop_spaces (reverse (drop_spaces (chunks (length s) s)))))
