-- ===== src/Common/Ids/RoundTrip.antt =====
-- Round trips of the identifiers (common/account.go, common/nonce/nonce.go, common/token.go).
use han_hermez_node.Prelude.{
  ℕ, ◌^◌, ◌<◌, ◌≡◌, List, arith, leb, if◌then◌else◌, length, All, Error, ok, err, ◌>>=◌,
}
use han_hermez_node.Bytes.{be, of_be, of_be-be_of_lt, be-of_be, of_be-lt}
use han_hermez_node.Common.Ids.{
  max_idx_value, max_nonce_value, idx_bytes, idx_from_bytes, nonce_bytes, nonce_from_bytes,
  token_id_bytes, token_id_from_bytes,
}

-- Decoding the bytes of an index gives the index back, for every uint64 up to 2 ^ 48 - 1, and a
-- larger one is refused with `ErrIdxOverflow`.
idx_from_bytes-idx_bytes :
    (idx : ℕ)
    → (idx_bytes idx >>= idx_from_bytes)
      ≡ (if leb idx max_idx_value then ok idx else err Error.idx_overflow)
unfolding idx_bytes idx_from_bytes be of_be
idx_from_bytes-idx_bytes idx = ground (arith, of_be-be_of_lt 6 idx)

-- Six bytes decode to an index, and encoding that index gives the same six bytes.
idx_bytes-idx_from_bytes :
    (b : List ℕ) → length b ≡ 6 → All (λ x. x < 256) b → (idx_from_bytes b >>= idx_bytes) ≡ ok b
unfolding idx_bytes idx_from_bytes be of_be
idx_bytes-idx_from_bytes b n h =
    let fits : of_be b < 256 ^ 6 = rw n at (of_be-lt b h) in
    let same : be 6 (of_be b) ≡ b = rw n at (be-of_be b h) in ground (arith, fits, same)

-- Decoding the bytes of a nonce gives the nonce back, for every nonce up to 2 ^ 40 - 1, and a
-- larger one is refused with the overflow error.
nonce_from_bytes-nonce_bytes :
    (n : ℕ)
    → (nonce_bytes n >>= λ b. ok (nonce_from_bytes b))
      ≡ (if leb n max_nonce_value then ok n else err Error.nonce_overflow)
unfolding nonce_bytes nonce_from_bytes be of_be
nonce_from_bytes-nonce_bytes n = ground (arith, of_be-be_of_lt 5 n)

pub token_id_from_bytes-token_id_bytes :
    (t : ℕ) → t < 2 ^ 32 → token_id_from_bytes (token_id_bytes t) ≡ ok t
unfolding token_id_from_bytes token_id_bytes be of_be
token_id_from_bytes-token_id_bytes t h = ground (arith, of_be-be_of_lt 4 t)
