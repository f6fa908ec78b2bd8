-- ===== src/Vault/Dispersal/Names.antt =====
-- Shard names: shardRE and shardName of internal/vault/dispersal.go.
pub mod RoundTrip
pub mod Sound
use shfm.Common.{
  ℕ, zero, suc, ◌+◌, Bool, true, false, ◌&&◌, ◌||◌, not, Option, none, some, List, [], ◌∷◌, ◌++◌,
  reverse, Bytes, codes, ◌==◌, leb, if◌then◌else◌,
}

-- The ends of shard names: `.a`, `.b`, `.c0` and `.c1`.
pub data Kind : Type 0 where
  a b c0 c1 : Kind

-- The part that a shard of the kind belongs on, as a row of `map[string]int` says.
abbrev pub part_of : Kind → ℕ
part_of a = 0
part_of b = 1
part_of c0 = 2
part_of c1 = 2

abbrev pub pad_of : Kind → ℕ
pad_of c1 = 1
pad_of _ = 0

abbrev pub dot : ℕ
dot = b'.'

abbrev pub newline : ℕ
newline = 10

abbrev pub gen_length : ℕ
gen_length = 8

-- `.a`, `.b`, or `.c` and the padding; `%d` of a number below ten is its digit.
unfoldable pub shard_suffix : ℕ → ℕ → Bytes
shard_suffix zero pad = codes ".a"
shard_suffix (suc zero) pad = codes ".b"
shard_suffix (suc (suc part)) pad = dot ∷ b'c' ∷ (48 + pad) ∷ []

unfoldable pub shard_name : Bytes → Bytes → ℕ → ℕ → Bytes
unfolding shard_suffix
shard_name name gen part pad = name ++ (dot ∷ (gen ++ shard_suffix part pad))

-- [0-9a-f]
unfoldable pub is_hex : ℕ → Bool
is_hex c = leb b'0' c && leb c b'9' || leb b'a' c && leb c b'f'

-- `.+`, where `.` matches every character but a newline
pub is_line : Bytes → Bool
is_line [] = true
is_line (c ∷ s) = not (c == newline) && is_line s

unfoldable pub is_name : Bytes → Bool
unfolding is_line
is_name [] = false
is_name (c ∷ s) = is_line (c ∷ s)

-- The expression is anchored at both ends, and behind the name each part has a fixed length, so
-- it is matched from the end. `\.(a|b|c0|c1)$`:
pub cut_kind : Bytes → Option (Kind × Bytes)
cut_kind (x ∷ y ∷ z ∷ r) =
    if x == b'a' && y == dot
    then some (a, z ∷ r)
    else if x == b'b' && y == dot
    then some (b, z ∷ r)
    else if x == b'0' && (y == b'c' && z == dot)
    then some (c0, r)
    else if x == b'1' && (y == b'c' && z == dot)
    then some (c1, r)
    else none
cut_kind _ = none

-- `[0-9a-f]{n}`, read backwards in front of `g`
pub cut_hex : ℕ → Bytes → Bytes → Option (Bytes × Bytes)
unfolding is_hex
cut_hex zero g r = some (g, r)
cut_hex (suc n) g [] = none
cut_hex (suc n) g (c ∷ r) = let rest = cut_hex n (c ∷ g) r in if is_hex c then rest else none

-- `^(.+)\.`
pub cut_name : Kind → Bytes → Bytes → Option (Bytes × Bytes × Kind)
unfolding is_name
cut_name k g [] = none
cut_name k g (c ∷ r) = if c == dot && is_name (reverse r) then some (reverse r, g, k) else none

pub with_gen : Kind → Option (Bytes × Bytes) → Option (Bytes × Bytes × Kind)
unfolding cut_name
with_gen k none = none
with_gen k (some (g, r)) = cut_name k g r

pub with_kind : Option (Kind × Bytes) → Option (Bytes × Bytes × Kind)
unfolding cut_hex with_gen
with_kind none = none
with_kind (some (k, r)) = with_gen k (cut_hex gen_length [] r)

-- The three groups that shardRE finds: the name, the generation and the kind.
unfoldable pub parse_shard : Bytes → Option (Bytes × Bytes × Kind)
unfolding cut_kind with_kind
parse_shard s = with_kind (cut_kind (reverse s))
