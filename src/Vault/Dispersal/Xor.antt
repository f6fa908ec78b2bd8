-- ===== src/Vault/Dispersal/Xor.antt =====
-- xorReader, and the shards as byte strings.
pub mod Laws
pub mod Piece
use Prim.Native.Nat.{bit_xor}
use shfm.Common.{
  ℕ, zero, suc, ◌+◌, ◌-◌, ◌/◌, Bool, true, false, ◌&&◌, ◌||◌, not, Option, none, some, List, [],
  ◌∷◌, Bytes, length, take, drop, min, ◌==◌, ltb, if◌then◌else◌,
}
use shfm.Vault.Dispersal.Generation.{Three, three}
use shfm.Vault.Dispersal.Generation.Laws.{len_a}

-- `p[i] ^= b[i]` for every `i` below the length of `b`.
unfoldable pub xor_onto : Bytes → Bytes → Bytes
xor_onto [] b = []
xor_onto (x ∷ p) [] = x ∷ p
xor_onto (x ∷ p) (y ∷ b) = bit_xor x y ∷ xor_onto p b

pub data ReadError : Type 0 where
  eof unexpected_eof open_failed : ReadError

-- What a `Read` returns: bytes, and an error if there is one.
abbrev pub ReadResult : Type 0
ReadResult = Bytes × Option ReadError

-- `a` and `b` are what the two readers have left to give.
pub record XorReader : Type 0 where
  pub a : Bytes
  pub b : Bytes
  pub left : ℕ
  pub b_eof : Bool

-- The part of `Read` behind the read of `n` bytes, `p`, of `a`: as many are read of `b`, unless
-- its end was met before (the first argument).
pub xor_read_b : Bool → Bytes → ℕ → XorReader → ReadResult × XorReader
unfolding xor_onto
xor_read_b true p n x = ((p, none), record x { a = drop n x.a; left = x.left - n })
xor_read_b false p n x = (
  (xor_onto p (take n x.b), none),
  record { a = drop n x.a; b = drop n x.b; left = x.left - n; b_eof = ltb (length x.b) n },
)

-- `io.ReadFull` of `k` bytes of `a`: it fails if bytes are wanted and none is left (the first
-- argument); a shorter read is taken as it is.
pub xor_read_a : Bool → ℕ → XorReader → ReadResult × XorReader
unfolding xor_read_b
xor_read_a true k x = (([], some unexpected_eof), x)
xor_read_a false k x = xor_read_b x.b_eof (take k x.a) (min k (length x.a)) x

-- The first argument is the test `x.n <= 0`.
pub xor_read_left : Bool → ℕ → XorReader → ReadResult × XorReader
unfolding xor_read_a
xor_read_left true k x = (([], some eof), x)
xor_read_left false k x = let m = min k x.left in xor_read_a (ltb 0 m && length x.a == 0) m x

unfoldable pub xor_read : ℕ → XorReader → ReadResult × XorReader
unfolding xor_read_left
xor_read k x = xor_read_left (x.left == 0) k x

-- A, B and C of a content: the first half, the second, and A xor B.
unfoldable pub shards : Bytes → Three Bytes
unfolding xor_onto
shards c = let n = len_a (length c) in three (take n c) (drop n c) (xor_onto (take n c) (drop n c))
