-- ===== src/Vault/Dispersal/Reader.antt =====
-- stepReader, and the readers that its steps open.
pub mod Drain
use shfm.Common.{
  ◌||◌, ℕ, zero, suc, ◌+◌, ◌-◌, Bool, true, false, Option, none, some, List, [], ◌∷◌, ◌++◌, Bytes,
  length, take, drop, min, ◌==◌, if◌then◌else◌,
}
use shfm.Vault.Dispersal.Xor.{
  ReadError, eof, unexpected_eof, open_failed, ReadResult, XorReader, xor_read,
}

-- An `io.LimitReader` of what a shard's reader has left, or an xorReader.
pub data Reader : Type 0 where
  limited : Bytes → ℕ → Reader
  xored : XorReader → Reader

limited_read : ℕ → Bytes → ℕ → ReadResult × Reader
limited_read k [] n = (([], some eof), limited [] n)
limited_read k (x ∷ c) zero = (([], some eof), limited (x ∷ c) zero)
limited_read k (x ∷ c) (suc n) =
    let m = min k (suc n) in
    let p = take m (x ∷ c) in ((p, none), limited (drop m (x ∷ c)) (suc n - length p))

as_reader : ReadResult × XorReader → ReadResult × Reader
as_reader (r, x) = (r, xored x)

unfoldable pub reader_read : ℕ → Reader → ReadResult × Reader
unfolding limited_read as_reader xor_read
reader_read k (limited c n) = limited_read k c n
reader_read k (xored x) = as_reader (xor_read k x)

-- `cur` is the reader in use. A step is what opening gives: a reader, or none for an error.
pub record StepReader : Type 0 where
  pub steps : List (Option Reader)
  pub cur : Option Reader

-- After the current reader's `Read`: at its end, the bytes that came with it are returned, or the
-- loop goes round (`others`).
after_read :
    ReadResult × Reader → List (Option Reader) → ReadResult × StepReader → ReadResult × StepReader
after_read ((p, some eof), r) steps others =
    if length p == 0 then others else ((p, none), record { steps = steps; cur = none })
after_read ((p, e), r) steps others = ((p, e), record { steps = steps; cur = some r })

-- The loop of `Read` without a current reader: the next step is opened.
read_next : ℕ → List (Option Reader) → ReadResult × StepReader
unfolding after_read reader_read
read_next k [] = (([], some eof), record { steps = []; cur = none })
read_next k (none ∷ steps) = (([], some open_failed), record { steps = none ∷ steps; cur = none })
read_next k (some r ∷ steps) = after_read (reader_read k r) steps (read_next k steps)

read_from : ℕ → Option Reader → List (Option Reader) → ReadResult × StepReader
unfolding read_next
read_from k none steps = read_next k steps
read_from k (some r) steps = after_read (reader_read k r) steps (read_next k steps)

unfoldable pub step_read : ℕ → StepReader → ReadResult × StepReader
unfolding read_from
step_read k s = read_from k s.cur s.steps

-- `io.Copy` with a buffer of `k` bytes: what was read up to the end, or none after an error. A
-- round of it makes one `Read`; fuel counts the rounds.
copy_on : ReadResult × StepReader → Bytes → (StepReader → Bytes → Option Bytes) → Option Bytes
copy_on ((p, none), s) out others = others s (out ++ p)
copy_on ((p, some eof), s) out others = some (out ++ p)
copy_on ((p, some e), s) out others = none

unfoldable pub copy_all : ℕ → ℕ → StepReader → Bytes → Option Bytes
unfolding copy_on step_read
copy_all zero k s out = none
copy_all (suc fuel) k s out = copy_on (step_read k s) out (copy_all fuel k)
