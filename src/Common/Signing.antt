-- ===== src/Common/Signing.antt =====
-- What a user signs (`HashToSign` and the compressed data of common/pooll2tx.go and common/l1tx.go),
-- and the identifiers of transactions (common/l2tx.go, common/l1tx.go).
pub mod Fields
pub mod Data
pub mod Binding
pub mod TxIds
use han_hermez_node.Bytes.{be, of_be}
use han_hermez_node.Crypto.{Crypto}
use han_hermez_node.Common.Ids.{idx_bytes, nonce_bytes, token_id_bytes}
use han_hermez_node.Common.Account.{empty_bjj_comp}
use han_hermez_node.Common.Tx.{L1Tx, L2Tx, PoolL2Tx}
use han_hermez_node.Common.Codec.{amount_bytes}
use han_hermez_node.Prelude.{
  ℕ, ◌+◌, ◌*◌, ◌^◌, Bool, false, none, some, List, [], ◌∷◌, ◌++◌, ◌==◌, if◌then◌else◌, replicate,
  Error, Result, ok, ◌>>=◌, ◌>>◌, ok_or,
}

abbrev pub signature_constant_bytes : List ℕ
signature_constant_bytes = 198 ∷ 11 ∷ 230 ∷ 15 ∷ []

abbrev pub byte_of : Bool → ℕ
byte_of b = if b then 1 else 0

-- The 29 bytes of `TxCompressedData`, after the two bytes of sign and fee.
abbrev pub compressed_layout : (nonce token to from chain : List ℕ) → List ℕ
compressed_layout nonce token to from chain =
    nonce ++ (token ++ (to ++ (from ++ (chain ++ signature_constant_bytes))))

-- `L1Tx.TxCompressedData`: no sign, fee and nonce
unfoldable pub l1_tx_compressed_data : ℕ → L1Tx → Result ℕ
l1_tx_compressed_data chain_id tx = do
  to ← idx_bytes tx.to_idx
  from ← idx_bytes tx.from_idx
  ok (
      of_be (
        0
        ∷ 0
        ∷ compressed_layout (replicate 5 0) (token_id_bytes tx.token_id) to from (be 2 chain_id)))

-- `TxCompressedDataEmpty`
unfoldable pub tx_compressed_data_empty : ℕ → ℕ
tx_compressed_data_empty chain_id =
    of_be (replicate 23 0 ++ (be 2 chain_id ++ signature_constant_bytes))

-- The 28 bytes of the second version of the data, which has the amount and not the chain. Only a key
-- that is not empty has a sign. The amount's errors come first, as in the code.
unfoldable pub compressed_data_v2 :
    (sign : Bool) (fee nonce token amount to_idx from_idx : ℕ) → Result ℕ
compressed_data_v2 sign fee nonce token amount to_idx from_idx = do
  a ← amount_bytes amount
  n ← nonce_bytes nonce
  to ← idx_bytes to_idx
  from ← idx_bytes from_idx
  ok (of_be (byte_of sign ∷ fee ∷ (n ++ (token_id_bytes token ++ (a ++ (to ++ from))))))

-- A nil requested amount counts as 0.
abbrev pub rq_amount_of : PoolL2Tx → ℕ
rq_amount_of tx = elim (tx.rq_amount) [ none ↦ 0 | some a ↦ a ]

-- The element `e1`
unfoldable pub amount_element : PoolL2Tx → Result ℕ
amount_element tx = do
  a ← amount_bytes tx.amount
  ok (of_be (be 4 tx.max_num_batch ++ (a ++ be 20 tx.to_eth_addr)))

module _ (c : Crypto) where
  -- `PoolL2Tx.TxCompressedData`
  unfoldable pub tx_compressed_data : ℕ → PoolL2Tx → Result ℕ
  tx_compressed_data chain_id tx = do
    nonce ← nonce_bytes tx.nonce
    to ← idx_bytes tx.to_idx
    from ← idx_bytes tx.from_idx
    ok (
        of_be (
          byte_of (c.unpack_sign_y tx.to_bjj).0
          ∷ tx.fee
          ∷ compressed_layout nonce (token_id_bytes tx.token_id) to from (be 2 chain_id)))

  -- The sign byte of the second version
  abbrev pub key_sign : ℕ → Bool
  key_sign bjj = if bjj == empty_bjj_comp then false else (c.unpack_sign_y bjj).0

  -- `TxCompressedDataV2`
  unfoldable pub tx_compressed_data_v2 : PoolL2Tx → Result ℕ
  tx_compressed_data_v2 tx =
      compressed_data_v2 (key_sign tx.to_bjj) tx.fee tx.nonce tx.token_id tx.amount tx.to_idx
        tx.from_idx

  -- `RqTxCompressedDataV2`
  unfoldable pub rq_tx_compressed_data_v2 : PoolL2Tx → Result ℕ
  rq_tx_compressed_data_v2 tx =
      compressed_data_v2 (key_sign tx.rq_to_bjj) tx.rq_fee tx.rq_nonce tx.rq_token_id
        (rq_amount_of tx) tx.rq_to_idx tx.rq_from_idx

  -- `PoolL2Tx.HashToSign`
  unfoldable pub hash_to_sign : ℕ → PoolL2Tx → Result ℕ
  hash_to_sign chain_id tx = do
    compressed ← tx_compressed_data chain_id tx
    e1 ← amount_element tx
    rq ← rq_tx_compressed_data_v2 tx
    let to_y = (c.unpack_sign_y tx.to_bjj).1
    let rq_y = (c.unpack_sign_y tx.rq_to_bjj).1
    ok_or (c.poseidon (compressed ∷ e1 ∷ to_y ∷ rq ∷ tx.rq_to_eth_addr ∷ rq_y ∷ []))
        Error.poseidon_error

-- `PoolL2Tx.L2Tx`
unfoldable pub l2_tx_of_pool : PoolL2Tx → L2Tx
l2_tx_of_pool tx = record {
  tx_id = tx.tx_id;
  batch_num = 0;
  position = 0;
  from_idx = tx.from_idx;
  to_idx = if tx.to_idx == 0 then tx.aux_to_idx else tx.to_idx;
  token_id = tx.token_id;
  amount = tx.amount;
  fee = tx.fee;
  nonce = tx.nonce;
  type = tx.type;
  eth_block_num = 0;
}

-- The 33 bytes of an identifier as a number: a prefix and a hash (`Keccak256Hash`, a parameter).
abbrev pub tx_id_of : ℕ → ℕ → ℕ
tx_id_of prefix hash = prefix * 256 ^ 32 + hash

-- `TxIDPrefixL1UserTx` and `TxIDPrefixL1CoordTx`
abbrev pub l1_prefix : Bool → ℕ
l1_prefix user_origin = if user_origin then 0 else 1

module _ (keccak256 : List ℕ → ℕ) where
  -- `L2Tx.CalculateTxID`, with the prefix 2
  unfoldable pub calculate_tx_id : L2Tx → Result ℕ
  calculate_tx_id tx = do
    from ← idx_bytes tx.from_idx
    a ← amount_bytes tx.amount
    n ← nonce_bytes tx.nonce
    let b = from ++ (token_id_bytes tx.token_id ++ (a ++ (n ++ (tx.fee ∷ []))))
    ok (tx_id_of 2 (keccak256 b))

  -- `PoolL2Tx.SetID`
  unfoldable pub pool_set_id : PoolL2Tx → Result PoolL2Tx
  pool_set_id tx = do i ← calculate_tx_id (l2_tx_of_pool tx); ok (record tx { tx_id = i })

  -- `L1Tx.SetID`: the queue of a user's transaction or the batch of a coordinator's, and the position
  unfoldable pub l1_set_id : L1Tx → Result ℕ
  l1_set_id tx = do
    num ← ok_or (if tx.user_origin then tx.to_forge_l1_txs_num else tx.batch_num) Error.missing_num
    ok (tx_id_of (l1_prefix tx.user_origin) (keccak256 (be 8 num ++ be 2 tx.position)))
