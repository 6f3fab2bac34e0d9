-- ===== src/TxProcessor/Process.antt =====
-- One transaction (`ProcessL1Tx`, `ProcessL2Tx` and `CheckEnoughBalance` of
-- txprocessor/txprocessor.go).
pub mod Wealth
use han_hermez_node.Prelude
use han_hermez_node.Exec.{Exec, lift, reads, gets, modify, pure, raise, ensure, zoom, ◌>>=◌, ◌>>◌}
use han_hermez_node.Crypto.{Crypto}
use han_hermez_node.Common.Account.{Account}
use han_hermez_node.Common.Fee.{calc_fee_amount}
use han_hermez_node.Common.Tx.{L1Tx, PoolL2Tx, TxType, tx_of_l1, tx_of_pool_l2}
use han_hermez_node.StateDb.{StateDb, get_account, get_idx_by_eth_addr_bjj}
use han_hermez_node.TxProcessor.State.{TxProcessor, read_account, is_synchronizer}
use han_hermez_node.TxProcessor.Effective.{compute_effective_amounts}
use han_hermez_node.TxProcessor.Apply.{
  apply_transfer, apply_deposit, apply_create_account, apply_create_account_deposit_transfer,
}
use han_hermez_node.TxProcessor.Exit.{ExitLeaf, apply_exit}
use han_hermez_node.Prelude.{
  ℕ, ◌+◌, Bool, true, false, ◌&&◌, Option, none, some, List, [], leb, ◌==◌, if◌then◌else◌, Error,
  ok, err,
}

-- What `ProcessL1Tx` returns, with the transaction that it writes to. The exit's index is
-- `tx.from_idx`, returned by an exit alone.
pub record L1Result : Type 0 where
  pub tx : L1Tx
  pub exit_idx : Option ℕ
  pub exit_leaf : Option ExitLeaf
  pub created_account : Option Account

pub record L2Result : Type 0 where
  pub tx : PoolL2Tx
  pub exit_idx : Option ℕ
  pub exit_leaf : Option ExitLeaf

module _ (c : Crypto) where
  -- An L1 transaction that is no exit: the account that it created is read in a Synchronizer.
  unfoldable pub finish_l1 : L1Tx → Bool → Exec TxProcessor L1Result
  finish_l1 tx creates p =
      if is_synchronizer p.state.typ && creates
      then (
        Prelude.◌>>=◌ (get_account c p.state.kv.current_idx p.state) λ a.
            ok (record { tx = tx; exit_idx = none; exit_leaf = none; created_account = some a }),
        p,
      )
      else (ok (record { tx = tx; exit_idx = none; exit_leaf = none; created_account = none }), p)

  -- The force exit.
  unfoldable pub finish_exit : L1Tx → Exec TxProcessor L1Result
  finish_exit tx = do
    leaf ← apply_exit c [] (tx_of_l1 tx) tx.amount
    pure (record { tx = tx; exit_idx = some tx.from_idx; exit_leaf = leaf; created_account = none })

  -- The switch on the type, with the transaction before and after its effective amounts are set.
  unfoldable pub apply_l1 : Option TxType → L1Tx → L1Tx → Exec TxProcessor L1Result
  unfolding finish_l1 finish_exit
  apply_l1 (some TxType.force_transfer) tx tx' =
      apply_transfer c [] (tx_of_l1 tx') 0 >> finish_l1 tx' false
  apply_l1 (some TxType.create_account_deposit) tx tx' =
      apply_create_account c tx' >> finish_l1 tx' true
  apply_l1 (some TxType.deposit) tx tx' = apply_deposit c tx' false >> finish_l1 tx' false
  apply_l1 (some TxType.deposit_transfer) tx tx' = apply_deposit c tx' true >> finish_l1 tx' false
  apply_l1 (some TxType.create_account_deposit_transfer) tx tx' =
      apply_create_account_deposit_transfer c tx' >> finish_l1 tx' true
  apply_l1 (some TxType.force_exit) tx tx' = finish_exit tx'
  apply_l1 _ tx tx' = finish_l1 tx false

  -- `ProcessL1Tx`
  unfoldable pub process_l1_tx : L1Tx → Exec TxProcessor L1Result
  unfolding apply_l1
  process_l1_tx tx p = apply_l1 tx.type tx (compute_effective_amounts c tx p.state) p

  -- The index of a receiver that is named by its address or key alone.
  unfoldable pub find_to_idx : PoolL2Tx → Exec TxProcessor PoolL2Tx
  find_to_idx tx p =
      if tx.to_idx == 0 && tx.aux_to_idx == 0
      then if is_synchronizer p.state.typ then (err Error.to_idx_zero, p) else (
        Prelude.◌>>=◌ (get_account c tx.from_idx p.state) λ sender.
            Prelude.◌>>=◌ (get_idx_by_eth_addr_bjj tx.to_eth_addr tx.to_bjj sender.token_id p.state)
              λ idx. ok (record tx { aux_to_idx = idx }),
        p,
      )
      else (ok tx, p)

  -- A Synchronizer's L2 transaction comes without its nonce and token.
  unfoldable pub fill_from_sender : PoolL2Tx → Exec TxProcessor PoolL2Tx
  fill_from_sender tx p =
      if is_synchronizer p.state.typ
      then (
        Prelude.◌>>=◌ (get_account c tx.from_idx p.state)
            λ a. ok (record tx { nonce = a.nonce; token_id = a.token_id }),
        p,
      )
      else (ok tx, p)

  -- The switch on the type.
  unfoldable pub apply_l2 : List (ℕ × ℕ) → PoolL2Tx → Exec TxProcessor L2Result
  apply_l2 coord_idxs_map tx = elim tx.type [
    | some TxType.transfer ↦ transfer
    | some TxType.transfer_to_eth_addr ↦ transfer
    | some TxType.transfer_to_bjj ↦ transfer
    | some TxType.exit ↦ exit
    | _ ↦ pure (record { tx = tx; exit_idx = none; exit_leaf = none })
  ]
    where
      transfer : Exec TxProcessor L2Result
      transfer = do
        apply_transfer c coord_idxs_map (tx_of_pool_l2 tx) tx.aux_to_idx
        pure (record { tx = tx; exit_idx = none; exit_leaf = none })

      exit : Exec TxProcessor L2Result
      exit = do
        leaf ← apply_exit c coord_idxs_map (tx_of_pool_l2 tx) tx.amount
        pure (record { tx = tx; exit_idx = some tx.from_idx; exit_leaf = leaf })

  -- `ProcessL2Tx`
  unfoldable pub process_l2_tx : List (ℕ × ℕ) → PoolL2Tx → Exec TxProcessor L2Result
  unfolding find_to_idx fill_from_sender apply_l2
  process_l2_tx coord_idxs_map tx = do
    found ← find_to_idx tx
    filled ← fill_from_sender found
    apply_l2 coord_idxs_map filled

  -- `CheckEnoughBalance`; nil is none.
  unfoldable pub check_enough_balance : PoolL2Tx → StateDb → Bool × Option (ℕ × ℕ)
  check_enough_balance tx s = elim (get_account c tx.from_idx s) [
    | err _ ↦ (false, none)
    | ok a ↦ elim (calc_fee_amount tx.amount tx.fee) [
      | err _ ↦ (false, none)
      | ok fee ↦ (leb (tx.amount + fee) a.balance, some (a.balance, tx.amount + fee))
    ]
  ]
