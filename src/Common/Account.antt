-- ===== src/Common/Account.antt =====
-- The account leaf and its encoding (common/account.go). An Ethereum address is the number of its
-- 20 bytes, a compressed public key that of its 32 bytes.
pub mod RoundTrip
pub mod Hash
use han_hermez_node.Bytes.{be, of_be}
use han_hermez_node.Crypto.{Crypto}
use han_hermez_node.Common.Ids.{
  max_nonce_value, nonce_bytes, nonce_from_bytes, token_id_bytes, token_id_from_bytes,
}
use han_hermez_node.Prelude.{
  ℕ, ◌+◌, ◌-◌, ◌^◌, Bool, List, [], ◌∷◌, ◌++◌, ltb, leb, ◌==◌, if◌then◌else◌, replicate, get_or,
  slice, Error, Result, ok, ◌>>=◌, ◌>>◌, ◌>>◌, check, ok_or,
}

pub record Account : Type 0 where
  pub idx : ℕ
  pub token_id : ℕ
  pub batch_num : ℕ
  pub bjj : ℕ
  pub eth_addr : ℕ
  pub nonce : ℕ
  pub balance : ℕ

abbrev pub empty_addr : ℕ
empty_addr = 0

abbrev pub ff_addr : ℕ
ff_addr = 2 ^ 160 - 1

abbrev pub empty_bjj_comp : ℕ
empty_bjj_comp = 0

-- The array that `Account.Bytes` fills, in order: byte 22 is the sign of the key, 23 to 27 the
-- nonce, 28 to 31 the token; then the balance, the key's ordinate and the address, 32 bytes each.
unfoldable pub account_layout : Account → List ℕ → Bool → ℕ → List ℕ
account_layout a nonce pk_sign pk_y =
    replicate 22 0
    ++ ((if pk_sign then 1 else 0) ∷ nonce
        ++ (token_id_bytes a.token_id
            ++ (be 32 a.balance ++ (be 32 pk_y ++ (replicate 12 0 ++ be 20 a.eth_addr)))))

module _ (c : Crypto) where
  -- `Account.Bytes`. `len(Balance.Bytes()) > 24` says that the balance is at least 2 ^ 192.
  unfoldable pub account_bytes : Account → Result (List ℕ)
  account_bytes a = do
    check (leb a.nonce max_nonce_value) Error.num_overflow
    check (ltb a.balance (2 ^ 192)) Error.num_overflow
    nonce ← nonce_bytes a.nonce
    let (pk_sign, pk_y) = c.unpack_sign_y a.bjj
    ok (account_layout a nonce pk_sign pk_y)

  -- `Account.BigInts`: the four elements of 32 bytes.
  unfoldable pub account_big_ints : Account → Result (List ℕ)
  account_big_ints a = do
    b ← account_bytes a
    ok (
        of_be (slice b 0 32)
        ∷ of_be (slice b 32 64)
        ∷ of_be (slice b 64 96)
        ∷ of_be (slice b 96 128)
        ∷ [])

  -- `Account.HashValue`
  unfoldable pub hash_value : Account → Result ℕ
  hash_value a = do bi ← account_big_ints a; ok_or (c.poseidon bi) Error.poseidon_error

  -- The checks of `AccountFromBytes` on the parts of the array, in the order of the code.
  unfoldable pub account_of_parts :
      Result ℕ → (nonce sign high balance ay eth_addr : ℕ) → Result Account
  account_of_parts token nonce sign high balance ay eth_addr = do
    token_id ← token
    check (high == 0) Error.num_overflow
    check (c.in_field balance) Error.not_in_ff
    check (c.in_field ay) Error.not_in_ff
    ok (record {
      idx = 0;
      token_id = token_id;
      batch_num = 0;
      bjj = c.pack_sign_y (sign == 1) ay;
      eth_addr = eth_addr;
      nonce = nonce;
      balance = balance;
    })

  -- `AccountFromBytes`, on 128 bytes. `bytes.Equal(b[32:40], zeros)` says that these eight stand
  -- for 0.
  unfoldable pub account_from_bytes : List ℕ → Result Account
  unfolding account_of_parts
  account_from_bytes b =
      account_of_parts (token_id_from_bytes (slice b 28 32)) (nonce_from_bytes (slice b 23 28))
        (get_or b 22 0) (of_be (slice b 32 40)) (of_be (slice b 40 64)) (of_be (slice b 64 96))
        (of_be (slice b 108 128))
