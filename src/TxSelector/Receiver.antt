-- ===== src/TxSelector/Receiver.antt =====
-- The accounts that a selected transaction needs: the coordinator's for the token and the receiver's
-- (`getCoordIdx`, `coordAccountForTokenID`, `processTxToEthAddrBJJ` and
-- `checkPendingToCreateFutureTxs` of txselector/txselector.go).
pub mod Space
use han_hermez_node.Common.Account.{empty_addr, ff_addr, empty_bjj_comp}
use han_hermez_node.Common.Tx.{L1Tx, PoolL2Tx, TxType}
use han_hermez_node.StateDb.{StateDb, get_idx_by_eth_addr, get_idx_by_eth_addr_bjj}
use han_hermez_node.TxSelector.State.{
  Setup, CoordAccount, AccountCreationAuth, can_add_l2_tx_that_needs_new_coord_l1_tx,
}
use han_hermez_node.Prelude.{
  ℕ, Bool, true, false, not, ◌&&◌, Option, none, some, List, [], ◌∷◌, ◌==◌, if◌then◌else◌, Error,
  Result, ok, err, ◌>>=◌, ◌>>◌, is_ok,
}

-- The L1 transaction that creates an account. The fields that Go leaves at nil or empty, the
-- effective amounts among them, are 0 and none.
unfoldable pub create_account_l1_tx : ℕ → ℕ → ℕ → ℕ → L1Tx
create_account_l1_tx position eth_addr bjj token_id = record {
  to_forge_l1_txs_num = none;
  position = position;
  user_origin = false;
  from_idx = 0;
  effective_from_idx = 0;
  from_eth_addr = eth_addr;
  from_bjj = bjj;
  to_idx = 0;
  token_id = token_id;
  amount = 0;
  effective_amount = 0;
  deposit_amount = 0;
  effective_deposit_amount = 0;
  eth_block_num = 0;
  type = some TxType.create_account_deposit;
  batch_num = none;
}

-- `getCoordIdx`
unfoldable pub get_coord_idx : CoordAccount → ℕ → StateDb → Result ℕ
get_coord_idx coord token_id s = get_idx_by_eth_addr_bjj coord.addr coord.bjj token_id s

-- `coordAccountForTokenID`; nil is none. The position that it returns is the one that it is given.
unfoldable pub coord_account_for_token_id : CoordAccount → ℕ → ℕ → StateDb → Result (Option L1Tx)
coord_account_for_token_id coord token_id position s = elim (get_coord_idx coord token_id s) [
  | ok _ ↦ ok none
  | err Error.idx_not_found ↦
      ok (some (create_account_l1_tx position coord.addr coord.bjj token_id))
  | err e ↦ err e
]

-- `checkPendingToCreateFutureTxs`
unfoldable pub check_pending_to_create_future_txs : List L1Tx → ℕ → ℕ → ℕ → Bool
check_pending_to_create_future_txs [] token_id addr bjj = false
check_pending_to_create_future_txs (tx ∷ txs) token_id addr bjj =
    if tx.from_eth_addr == addr && tx.token_id == token_id && tx.from_bjj == bjj
    then true
    else if tx.from_eth_addr == addr && tx.token_id == token_id && empty_bjj_comp == bjj
    then true
    else check_pending_to_create_future_txs txs token_id addr bjj

-- The L1 transaction and the authorization that `processTxToEthAddrBJJ` returns beside the
-- transaction that it was given; both are none where the receiver has its account.
pub record NewReceiver : Type 0 where
  pub l1_coordinator_tx : Option L1Tx
  pub acc_auth : Option AccountCreationAuth

module _ (w : Setup) where
  -- The authorization of the receiver's address, for the key `bjj` where there is one.
  unfoldable pub receiver_auth : PoolL2Tx → Result AccountCreationAuth
  receiver_auth tx = elim (w.get_account_creation_auth tx.to_eth_addr) [
    | none ↦ err Error.no_creation_auth
    | some auth ↦
        if not (tx.to_bjj == empty_bjj_comp) && not (auth.bjj == tx.to_bjj)
        then err Error.creation_auth_mismatch
        else ok auth
  ]

  -- The last test of `processTxToEthAddrBJJ`.
  unfoldable pub with_space : ℕ → ℕ → NewReceiver → Result NewReceiver
  with_space n_l1 n_l2 r =
      if can_add_l2_tx_that_needs_new_coord_l1_tx n_l1 n_l2 w.config
      then ok r
      else err Error.no_slots_for_l1

  -- A receiver that is named by its address, with or without a key.
  unfoldable pub receiver_by_eth_addr : ℕ → ℕ → ℕ → PoolL2Tx → StateDb → Result NewReceiver
  receiver_by_eth_addr n_l1 n_l2 position tx s =
      let known : Bool =
        if tx.to_bjj == empty_bjj_comp
        then is_ok (get_idx_by_eth_addr tx.to_eth_addr tx.token_id s)
        else is_ok (get_idx_by_eth_addr_bjj tx.to_eth_addr tx.to_bjj tx.token_id s) in
      if known
      then ok (record { l1_coordinator_tx = none; acc_auth = none })
      else (receiver_auth tx >>= λ auth. with_space n_l1 n_l2 (record {
        l1_coordinator_tx = some (create_account_l1_tx position auth.eth_addr auth.bjj tx.token_id);
        acc_auth = some auth;
      }))

  -- A receiver that is named by its key alone.
  unfoldable pub receiver_by_bjj : ℕ → ℕ → ℕ → PoolL2Tx → StateDb → Result NewReceiver
  receiver_by_bjj n_l1 n_l2 position tx s =
      if is_ok (get_idx_by_eth_addr_bjj tx.to_eth_addr tx.to_bjj tx.token_id s)
      then ok (record { l1_coordinator_tx = none; acc_auth = none })
      else with_space n_l1 n_l2 (record {
        l1_coordinator_tx =
            some (create_account_l1_tx position tx.to_eth_addr tx.to_bjj tx.token_id);
        acc_auth = none;
      })

  -- `processTxToEthAddrBJJ`
  unfoldable pub process_tx_to_eth_addr_bjj :
      List L1Tx → ℕ → ℕ → ℕ → PoolL2Tx → StateDb → Result NewReceiver
  unfolding receiver_by_eth_addr receiver_by_bjj
  process_tx_to_eth_addr_bjj future n_l1 n_l2 position tx s =
      if check_pending_to_create_future_txs future tx.token_id tx.to_eth_addr tx.to_bjj
      then err Error.created_in_future
      else if not (tx.to_eth_addr == empty_addr) && not (tx.to_eth_addr == ff_addr)
      then receiver_by_eth_addr n_l1 n_l2 position tx s
      else if tx.to_eth_addr == ff_addr && not (tx.to_bjj == empty_bjj_comp)
      then receiver_by_bjj n_l1 n_l2 position tx s
      else with_space n_l1 n_l2 (record { l1_coordinator_tx = none; acc_auth = none })
