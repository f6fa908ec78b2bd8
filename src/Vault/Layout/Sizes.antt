-- ===== src/Vault/Layout/Sizes.antt =====
-- Sizes of encrypted files: cipherSize and plainSize of internal/vault/enabled.go.
use shfm.Common.{
  ℕ, ◌+◌, ◌-◌, ◌*◌, ◌/◌, ◌≤◌, ◌≡◌, refl, true, false, Option, none, some, ltb, ◌==◌, if◌then◌else◌,
  arith,
}

abbrev pub chunk_size : ℕ
chunk_size = 65536

abbrev pub tag_size : ℕ
tag_size = 16

-- An empty file is one empty chunk.
unfoldable pub chunks_for : ℕ → ℕ
chunks_for n = if (n + 65535) / 65536 == 0 then 1 else (n + 65535) / 65536

unfoldable pub cipher_size : ℕ → ℕ → ℕ
unfolding chunks_for
cipher_size overhead n = overhead + (n + chunks_for n * tag_size)

-- The size of the plaintext of `payload` bytes.
unfoldable pub plain_of : ℕ → ℕ
plain_of payload = payload - (payload + 65551) / 65552 * tag_size

-- A size below zero is none, as is one that does not give `c`.
unfoldable pub plain_size : ℕ → ℕ → Option ℕ
unfolding cipher_size plain_of
plain_size overhead c =
    let payload = c - overhead in
    let n = plain_of payload in
    if ltb payload tag_size
    then none
    else if ltb payload ((payload + 65551) / 65552 * tag_size)
    then none
    else if cipher_size overhead n == c
    then some n
    else none

chunks_for-bounds :
    (n : ℕ) → (n ≤ chunks_for n * 65536) × (chunks_for n * 65536 ≤ n + 65536) × (1 ≤ chunks_for n)
unfolding chunks_for
chunks_for-bounds n = (ground arith, ground arith, ground arith)

-- as many chunks as the plaintext has
chunks_back :
    (n k : ℕ) → n ≤ k * 65536 → k * 65536 ≤ n + 65536 → 1 ≤ k → (n + k * 16 + 65551) / 65552 ≡ k
chunks_back n k h l p = omega arith

not_less : (a b : ℕ) → b ≤ a → ltb a b ≡ false
not_less a b h = ground arith

same_size : (a b : ℕ) → a ≡ b → (a == b) ≡ true
same_size a b h = ground arith

payload_of : (o n : ℕ) → cipher_size o n - o ≡ n + chunks_for n * 16
unfolding cipher_size
payload_of o n = omega arith

add_sub : (a b : ℕ) → a + b - b ≡ a
add_sub a b = omega arith

chunks_of-payload : (n : ℕ) → (n + chunks_for n * 16 + 65551) / 65552 ≡ chunks_for n
chunks_of-payload n = let (h, l, p) = chunks_for-bounds n in chunks_back n (chunks_for n) h l p

-- The size of a file's plaintext is found again from the size of the file, for every size: the
-- sizes that a listing shows are the files' own.
pub plain_size-cipher_size : (o n : ℕ) → plain_size o (cipher_size o n) ≡ some n
unfolding plain_size cipher_size
plain_size-cipher_size o n =
    let (h, l, p) = chunks_for-bounds n in
    rw (payload_of o n) (
      rw (not_less (n + chunks_for n * 16) 16 (omega arith)) (
        rw (chunks_of-payload n) (
          rw (not_less (n + chunks_for n * 16) (chunks_for n * 16) (omega arith)) (
            rw (add_sub n (chunks_for n * 16))
              (rw (same_size (cipher_size o n) (cipher_size o n) refl) refl)))))
