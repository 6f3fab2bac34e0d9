-- ===== src/Common/Tx.antt =====
-- Transactions (common/tx.go, common/l1tx.go, common/l2tx.go, common/pooll2tx.go). Amounts are
-- never nil and never negative. A hash, a time and a float that no rule reads are left out.
use han_hermez_node.Common.Ids.{idx_user_threshold}
use han_hermez_node.Common.Account.{empty_addr, ff_addr, empty_bjj_comp}
use han_hermez_node.Prelude.{
  ℕ, ◌%◌, ◌^◌, Bool, true, false, not, ◌&&◌, Option, some, leb, ◌==◌, if◌then◌else◌, Error, Result,
  ok, err,
}

-- `TxType`; the empty string of a transaction without a type is `none` in an option.
pub data TxType : Type 0 where
  exit transfer deposit create_account_deposit create_account_deposit_transfer : TxType
  deposit_transfer force_transfer force_exit transfer_to_eth_addr transfer_to_bjj : TxType

-- `L1Tx`
pub record L1Tx : Type 0 where
  pub to_forge_l1_txs_num : Option ℕ
  pub position : ℕ
  pub user_origin : Bool
  pub from_idx : ℕ
  pub effective_from_idx : ℕ
  pub from_eth_addr : ℕ
  pub from_bjj : ℕ
  pub to_idx : ℕ
  pub token_id : ℕ
  pub amount : ℕ
  pub effective_amount : ℕ
  pub deposit_amount : ℕ
  pub effective_deposit_amount : ℕ
  pub eth_block_num : ℕ
  pub type : Option TxType
  pub batch_num : Option ℕ

-- `PoolL2Tx`, without what only the signature, the API and the tables of the pool use. An atomic
-- group's empty identifier is 0, an absolute fee is the number of its bits, and of the message of a
-- rejection the code alone is kept, since the two texts go with it. A nil requested amount is none.
pub record PoolL2Tx : Type 0 where
  pub tx_id : ℕ
  pub from_idx : ℕ
  pub to_idx : ℕ
  pub aux_to_idx : ℕ
  pub to_eth_addr : ℕ
  pub to_bjj : ℕ
  pub token_id : ℕ
  pub amount : ℕ
  pub fee : ℕ
  pub nonce : ℕ
  pub max_num_batch : ℕ
  pub error_code : ℕ
  pub rq_from_idx : ℕ
  pub rq_to_idx : ℕ
  pub rq_to_eth_addr : ℕ
  pub rq_to_bjj : ℕ
  pub rq_token_id : ℕ
  pub rq_amount : Option ℕ
  pub rq_fee : ℕ
  pub rq_nonce : ℕ
  pub absolute_fee : ℕ
  pub rq_offset : ℕ
  pub atomic_group_id : ℕ
  pub type : Option TxType

-- `L2Tx`
pub record L2Tx : Type 0 where
  pub tx_id : ℕ
  pub batch_num : ℕ
  pub position : ℕ
  pub from_idx : ℕ
  pub to_idx : ℕ
  pub token_id : ℕ
  pub amount : ℕ
  pub fee : ℕ
  pub nonce : ℕ
  pub type : Option TxType
  pub eth_block_num : ℕ

-- The fields of `Tx` that the processor reads.
pub record Tx : Type 0 where
  pub is_l1 : Bool
  pub type : Option TxType
  pub from_idx : ℕ
  pub to_idx : ℕ
  pub amount : ℕ
  pub token_id : ℕ
  pub fee : ℕ

-- `L1Tx.Tx`: the amount is the effective one. The fee pointer is nil, and an L1 transaction's fee
-- is never read.
unfoldable pub tx_of_l1 : L1Tx → Tx
tx_of_l1 tx = record {
  is_l1 = true;
  type = tx.type;
  from_idx = tx.from_idx;
  to_idx = tx.to_idx;
  amount = tx.effective_amount;
  token_id = tx.token_id;
  fee = 0;
}

-- `PoolL2Tx.Tx`
unfoldable pub tx_of_pool_l2 : PoolL2Tx → Tx
tx_of_pool_l2 tx = record {
  is_l1 = false;
  type = tx.type;
  from_idx = tx.from_idx;
  to_idx = tx.to_idx;
  amount = tx.amount;
  token_id = tx.token_id;
  fee = tx.fee;
}

-- `L1Tx.SetType`. `DepositAmount.Int64() == 0` reads the low 64 bits of the amount.
unfoldable pub l1_set_type : L1Tx → Result L1Tx
l1_set_type tx =
    if tx.from_idx == 0
    then if tx.to_idx == 0
      then ok (record tx { type = some TxType.create_account_deposit })
      else if leb idx_user_threshold tx.to_idx
      then ok (record tx { type = some TxType.create_account_deposit_transfer })
      else err Error.invalid_to_idx
    else if leb idx_user_threshold tx.from_idx
    then if tx.to_idx == 0
      then ok (record tx { type = some TxType.deposit })
      else if tx.to_idx == 1
      then ok (record tx { type = some TxType.force_exit })
      else if leb idx_user_threshold tx.to_idx
      then if tx.deposit_amount % 2 ^ 64 == 0
        then ok (record tx { type = some TxType.force_transfer })
        else ok (record tx { type = some TxType.deposit_transfer })
      else err Error.invalid_to_idx
    else err Error.invalid_from_idx

-- `PoolL2Tx.SetType`
unfoldable pub pool_l2_set_type : PoolL2Tx → Result PoolL2Tx
pool_l2_set_type tx =
    let is_addr_empty = tx.to_bjj == empty_bjj_comp && tx.to_eth_addr == empty_addr in
    if leb idx_user_threshold tx.to_idx
    then ok (record tx { type = some TxType.transfer })
    else if is_addr_empty && tx.to_idx == 1
    then ok (record tx { type = some TxType.exit })
    else if tx.to_idx == 0
    then if not (tx.to_bjj == empty_bjj_comp) && tx.to_eth_addr == ff_addr
      then ok (record tx { type = some TxType.transfer_to_bjj })
      else if not (tx.to_eth_addr == ff_addr)
          && (not (tx.to_eth_addr == empty_addr) && tx.to_bjj == empty_bjj_comp)
      then ok (record tx { type = some TxType.transfer_to_eth_addr })
      else err Error.malformed_transaction
    else err Error.malformed_transaction
