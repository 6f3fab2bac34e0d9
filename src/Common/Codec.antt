-- ===== src/Common/Codec.antt =====
-- The encodings of transactions (common/l1tx.go, common/l2tx.go, common/utils.go): the data
-- availability of a batch, and the user and coordinator transactions of the contract. An array that
-- the code fills by parts is the parts in order. A slice beyond the end of an array is a panic,
-- `out_of_range`; the capacity of a slice is taken to be its length.
pub mod Slices
pub mod Parts
pub mod DataAvailability
pub mod Generic
pub mod CoordinatorTx
use han_hermez_node.Bytes.{be, of_be}
use han_hermez_node.Common.Ids.{idx_bytes, idx_from_bytes, token_id_bytes, token_id_from_bytes}
use han_hermez_node.Common.Account.{ff_addr, empty_bjj_comp}
use han_hermez_node.Common.Float40.{new_float40, float40_bytes, float40_from_bytes, float40_big_int}
use han_hermez_node.Common.Tx.{L1Tx, L2Tx}
use han_hermez_node.Prelude.{
  ℕ, ◌+◌, ◌-◌, ◌*◌, ◌/◌, ◌%◌, ◌^◌, Bool, true, false, not, ◌&&◌, none, List, [], ◌∷◌, ◌++◌, ltb,
  leb, ◌==◌, if◌then◌else◌, length, take, drop, replicate, get_or, slice, Error, Result, ok, err,
  ◌>>=◌, ◌>>◌, check,
}

-- `SwapEndianness`
unfoldable pub swap_endianness : List ℕ → List ℕ
swap_endianness [] = []
swap_endianness (b ∷ bs) = swap_endianness bs ++ (b ∷ [])

-- `L1Tx{}` and `L2Tx{}`
abbrev pub empty_l1_tx : L1Tx
empty_l1_tx = record {
  to_forge_l1_txs_num = none;
  position = 0;
  user_origin = false;
  from_idx = 0;
  effective_from_idx = 0;
  from_eth_addr = 0;
  from_bjj = 0;
  to_idx = 0;
  token_id = 0;
  amount = 0;
  effective_amount = 0;
  deposit_amount = 0;
  effective_deposit_amount = 0;
  eth_block_num = 0;
  type = none;
  batch_num = none;
}

abbrev pub empty_l2_tx : L2Tx
empty_l2_tx = record {
  tx_id = 0;
  batch_num = 0;
  position = 0;
  from_idx = 0;
  to_idx = 0;
  token_id = 0;
  amount = 0;
  fee = 0;
  nonce = 0;
  type = none;
  eth_block_num = 0;
}

-- `NewFloat40` and `Float40.Bytes`, as every encoder calls them.
unfoldable pub amount_bytes : ℕ → Result (List ℕ)
amount_bytes amount = do f ← new_float40 amount; float40_bytes f

-- `Float40FromBytes(b).BigInt()`
unfoldable pub amount_from_bytes : List ℕ → Result ℕ
amount_from_bytes b = float40_big_int (float40_from_bytes b)

-- `((nLevels*2)+40+8)/8`, for the levels that index bytes can serve.
abbrev pub da_length : ℕ → ℕ
da_length n_levels = (n_levels * 2 + 40 + 8) / 8

-- The indexes and the amount, and the zeros that are left of the array. `fromIdxBytes[6-idxLen:]`
-- is a panic for more than six bytes, whichever index comes first.
unfoldable pub da_head : ℕ → ℕ → ℕ → ℕ → List ℕ → Result (List ℕ)
da_head idx_len from_idx to_idx amount tail = do
  from ← idx_bytes from_idx
  check (leb idx_len 6) Error.out_of_range
  to ← idx_bytes to_idx
  a ← amount_bytes amount
  ok (drop (6 - idx_len) from ++ (drop (6 - idx_len) to ++ (a ++ tail)))

-- `L2Tx.BytesDataAvailability`
unfoldable pub l2_bytes_data_availability : ℕ → L2Tx → Result (List ℕ)
l2_bytes_data_availability n_levels tx =
    let idx_len = n_levels / 8 in
    da_head idx_len tx.from_idx tx.to_idx tx.amount
      (tx.fee ∷ replicate (da_length n_levels - (idx_len * 2 + 6)) 0)

-- `L1Tx.BytesDataAvailability`: the fee stays 0. A nil amount is written like 0.
unfoldable pub l1_bytes_data_availability : ℕ → L1Tx → Result (List ℕ)
l1_bytes_data_availability n_levels tx =
    let idx_len = n_levels / 8 in
    da_head idx_len tx.from_idx tx.to_idx tx.effective_amount
      (replicate (da_length n_levels - (idx_len * 2 + 5)) 0)

-- `L2TxFromBytesDataAvailability`: the index bytes go behind zeros in six bytes.
unfoldable pub l2_tx_from_bytes_data_availability : List ℕ → ℕ → Result L2Tx
l2_tx_from_bytes_data_availability b n_levels = do
  let idx_len = n_levels / 8
  check (leb idx_len 6 && leb (idx_len * 2 + 6) (length b)) Error.out_of_range
  from ← idx_from_bytes (replicate (6 - idx_len) 0 ++ slice b 0 idx_len)
  to ← idx_from_bytes (replicate (6 - idx_len) 0 ++ slice b idx_len (idx_len * 2))
  amount ← amount_from_bytes (slice b (idx_len * 2) (idx_len * 2 + 5))
  ok (record empty_l2_tx {
    from_idx = from;
    to_idx = to;
    amount = amount;
    fee = get_or b (idx_len * 2 + 5) 0;
  })

-- `L1TxFromDataAvailability`, with go-ethereum's `LeftPadBytes`
unfoldable pub l1_tx_from_data_availability : (List ℕ → ℕ → List ℕ) → List ℕ → ℕ → Result L1Tx
l1_tx_from_data_availability left_pad_bytes b n_levels = do
  let idx_len = n_levels / 8
  check (leb (idx_len * 2 + 5) (length b)) Error.out_of_range
  from ← idx_from_bytes (left_pad_bytes (slice b 0 idx_len) 6)
  to ← idx_from_bytes (left_pad_bytes (slice b idx_len (idx_len * 2)) 6)
  amount ← amount_from_bytes (slice b (idx_len * 2) (idx_len * 2 + 5))
  ok (record empty_l1_tx { from_idx = from; to_idx = to; effective_amount = amount })

-- `L1Tx.BytesGeneric`: 78 bytes
unfoldable pub l1_bytes_generic : L1Tx → Result (List ℕ)
l1_bytes_generic tx = do
  from ← idx_bytes tx.from_idx
  deposit ← amount_bytes tx.deposit_amount
  amount ← amount_bytes tx.amount
  to ← idx_bytes tx.to_idx
  ok (
      be 20 tx.from_eth_addr
      ++ ((if tx.from_bjj == empty_bjj_comp
            then replicate 32 0
            else swap_endianness (be 32 tx.from_bjj))
          ++ (from ++ (deposit ++ (amount ++ (token_id_bytes tx.token_id ++ to))))))

-- `L1Tx.BytesUser`
unfoldable pub l1_bytes_user : L1Tx → Result (List ℕ)
l1_bytes_user tx = if tx.user_origin then l1_bytes_generic tx else err Error.coordinator_tx

-- `L1UserTxFromBytes`
unfoldable pub l1_user_tx_from_bytes : List ℕ → Result L1Tx
l1_user_tx_from_bytes b = do
  check (length b == 78) Error.bad_length
  from ← idx_from_bytes (slice b 52 58)
  deposit ← amount_from_bytes (slice b 58 63)
  amount ← amount_from_bytes (slice b 63 68)
  token ← token_id_from_bytes (slice b 68 72)
  to ← idx_from_bytes (slice b 72 78)
  ok (record empty_l1_tx {
    user_origin = true;
    from_eth_addr = of_be (slice b 0 20);
    from_bjj = of_be (swap_endianness (slice b 20 52));
    from_idx = from;
    deposit_amount = deposit;
    amount = amount;
    token_id = token;
    to_idx = to;
  })

-- `L1Tx.BytesCoordinatorTx`: 101 bytes, with the signature of the account's authorization
unfoldable pub l1_bytes_coordinator_tx : List ℕ → L1Tx → Result (List ℕ)
l1_bytes_coordinator_tx signature tx = do
  check (not tx.user_origin) Error.user_tx
  check (leb 65 (length signature)) Error.out_of_range
  ok (
      get_or signature 64 0
      ∷ (slice signature 32 64
          ++ (slice signature 0 32
              ++ (swap_endianness (be 32 tx.from_bjj) ++ token_id_bytes tx.token_id))))

-- The signatures of go-ethereum: the hash that `AccountCreationAuth.HashToSign` takes of a key, a
-- chain and a contract (`HashStruct`, `Keccak256`), and the address of the signer of a hash
-- (`Ecrecover`, `UnmarshalPubkey`, `PubkeyToAddress`).
pub record EthSigner : Type 0 where
  pub hash_to_sign : ℕ → ℕ → ℕ → Result ℕ
  pub recover : ℕ → List ℕ → Result ℕ

module _ (s : EthSigner) where
  -- `L1CoordinatorTxFromBytes`
  unfoldable pub l1_coordinator_tx_from_bytes : List ℕ → ℕ → ℕ → Result L1Tx
  l1_coordinator_tx_from_bytes b chain_id hermez_address = do
    check (length b == 101) Error.bad_length
    token ← token_id_from_bytes (slice b 97 101)
    let v = get_or b 0 0
    let bjj = of_be (swap_endianness (slice b 65 97))
    let signature = slice b 33 65 ++ (slice b 1 33 ++ (((v + 256 - 27) % 256) ∷ []))
    let signer = do
      h ← s.hash_to_sign bjj (chain_id % 2 ^ 64 % 2 ^ 16) hermez_address
      s.recover h signature
    address ← if ltb 0 v then signer else ok ff_addr
    ok (record empty_l1_tx { from_bjj = bjj; token_id = token; from_eth_addr = address })

  -- `AccountCreationAuth.VerifySignature` (common/accountcreationauths.go), of the address, the key
  -- and the signature of an authorization: `copy` fills up to 65 bytes.
  unfoldable pub verify_signature : ℕ → ℕ → List ℕ → ℕ → ℕ → Result Bool
  verify_signature eth_addr bjj signature chain_id hermez_address = do
    h ← s.hash_to_sign bjj chain_id hermez_address
    let sig = take 65 (signature ++ replicate 65 0)
    let v = (get_or sig 64 0 + 256 - 27) % 256
    address ← s.recover h (take 64 sig ++ (v ∷ []))
    check (address == eth_addr) Error.wrong_signer
    ok true
