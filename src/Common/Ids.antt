-- ===== src/Common/Ids.antt =====
-- Account indexes, nonces, token and batch numbers (common/account.go, common/nonce/nonce.go,
-- common/token.go, common/batch.go). Each is a machine word, kept as a number: `Idx` and `Nonce`
-- are uint64, `TokenID` is uint32, `BatchNum` is the bit pattern of an int64.
pub mod RoundTrip
use han_hermez_node.Prelude.{
  ℕ, ◌-◌, ◌%◌, ◌^◌, ◌&&◌, List, ◌++◌, length, drop, replicate, ltb, ◌==◌, if◌then◌else◌, Result, ok,
  err, idx_overflow, nonce_overflow, num_overflow, bad_length,
}
use han_hermez_node.Bytes.{be, of_be}

abbrev pub max_idx_value : ℕ
max_idx_value = 2 ^ 48 - 1

abbrev pub max_nonce_value : ℕ
max_nonce_value = 2 ^ 40 - 1

abbrev pub idx_bytes_len : ℕ
idx_bytes_len = 6

abbrev pub idx_user_threshold : ℕ
idx_user_threshold = 256

-- `Idx.Bytes`: the six low bytes of the uint64.
unfoldable pub idx_bytes : ℕ → Result (List ℕ)
idx_bytes idx = if ltb max_idx_value idx then err idx_overflow else ok (drop 2 (be 8 idx))

-- `IdxFromBytes`
unfoldable pub idx_from_bytes : List ℕ → Result ℕ
idx_from_bytes b =
    if length b == idx_bytes_len then ok (of_be (replicate 2 0 ++ b)) else err bad_length

-- `IdxFromBigInt` on a number that is not negative. `Int64()` keeps the low 64 bits as a signed
-- word, so a pattern from 2 ^ 63 on compares as a negative number.
unfoldable pub idx_from_big_int : ℕ → Result ℕ
idx_from_big_int b =
    let word = b % 2 ^ 64 in
    if ltb word (2 ^ 63) && ltb max_idx_value word then err num_overflow else ok word

-- `Nonce.Bytes`
unfoldable pub nonce_bytes : ℕ → Result (List ℕ)
nonce_bytes n = if ltb max_nonce_value n then err nonce_overflow else ok (drop 3 (be 8 n))

-- `nonce.FromBytes`, on an array of five bytes
unfoldable pub nonce_from_bytes : List ℕ → ℕ
nonce_from_bytes b = of_be (replicate 3 0 ++ b)

-- `TokenID.Bytes`
unfoldable pub token_id_bytes : ℕ → List ℕ
token_id_bytes = be 4

-- `TokenIDFromBytes`
unfoldable pub token_id_from_bytes : List ℕ → Result ℕ
token_id_from_bytes b = if length b == 4 then ok (of_be b) else err bad_length

-- `TokenIDFromBigInt`: the low 32 bits of the low 64.
unfoldable pub token_id_from_big_int : ℕ → ℕ
token_id_from_big_int b = b % 2 ^ 64 % 2 ^ 32

-- `BatchNum.Bytes`
unfoldable pub batch_num_bytes : ℕ → List ℕ
batch_num_bytes = be 8

-- `BatchNumFromBytes`
unfoldable pub batch_num_from_bytes : List ℕ → Result ℕ
batch_num_from_bytes b = if length b == 8 then ok (of_be b) else err bad_length
