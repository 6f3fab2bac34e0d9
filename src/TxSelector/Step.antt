-- ===== src/TxSelector/Step.antt =====
-- `processL2Txs` of txselector/txselector.go: the body of its loop in parts, and the loop.
pub mod Ids
pub mod Accounts
pub mod Walk
pub mod Loop
pub mod Capacity
pub mod Partition
pub mod Eligible
pub mod Whole
use han_hermez_node.Crypto.{Crypto}
use han_hermez_node.Common.Ids.{idx_user_threshold}
use han_hermez_node.Common.Account.{Account, ff_addr}
use han_hermez_node.Common.Tx.{L1Tx, PoolL2Tx, TxType}
use han_hermez_node.StateDb.{StateDb, get_account}
use han_hermez_node.TxProcessor.State.{TxProcessor}
use han_hermez_node.TxProcessor.Process.{
  L2Result, process_l1_tx, process_l2_tx, find_to_idx, check_enough_balance,
}
use han_hermez_node.TxSelector.State.{
  Setup, Selection, can_add_l2_tx, can_add_l2_tx_that_needs_new_coord_l1_tx, empty_atomic_group_id,
  empty_eth_signature, err_exit_amount, err_unsupported_max_num_batch,
  err_sender_not_enough_balance, err_no_current_nonce, err_not_enough_space_l1_coordinator,
  err_tx_discarded_in_process_tx_to_eth_addr_bjj, err_to_idx_not_found,
  err_tx_discarded_in_process_l2_tx, err_no_available_slots,
}
use han_hermez_node.TxSelector.Pick.{
  Flow, next, skip, group_failed, stop, Pick, ◌>>=◌, ◌>>◌, pure, lift, gets, modify, process,
  iteration, add_non_selected, add_unforjable, discard, require,
}
use han_hermez_node.TxSelector.Receiver.{
  get_coord_idx, coord_account_for_token_id, NewReceiver, process_tx_to_eth_addr_bjj,
}
use han_hermez_node.Prelude.{
  ℕ, ◌+◌, ◌%◌, ◌^◌, Bool, true, false, not, ◌&&◌, ◌||◌, Option, none, some, List, [], ◌∷◌, ◌++◌,
  leb, ◌==◌, if◌then◌else◌, Result, ok, err, is_ok, lookup, insert,
}

-- `nextBatchNum`, a `uint32`
abbrev pub next_batch_num : Selection → ℕ
next_batch_num s = (s.tp.state.kv.current_batch % 2 ^ 32 + 1) % 2 ^ 32

abbrev pub within_max_num_batch : PoolL2Tx → ℕ → Bool
within_max_num_batch tx n = tx.max_num_batch == 0 || leb n tx.max_num_batch

abbrev pub is_exit : Option TxType → Bool
is_exit (some TxType.exit) = true
is_exit _ = false

-- The counter and the array after an L1 transaction of the coordinator.
unfoldable pub add_l1_coordinator_tx : L1Tx → ℕ → Selection → Selection
add_l1_coordinator_tx tx auth s = record s {
  position_l1 = s.position_l1 + 1;
  l1_coordinator_txs = s.l1_coordinator_txs ++ tx ∷ [];
  acc_auths = s.acc_auths ++ auth ∷ [];
}

abbrev pub count_l1 : Selection → Selection
count_l1 s = record s { n_l1 = s.n_l1 + 1 }

-- The write to `tp.AccumulatedFees` of an index that has none.
abbrev pub init_fee : ℕ → Selection → Selection
init_fee idx s = elim (lookup idx s.tp.accumulated_fees) [
  | none ↦ record s { tp = record s.tp { accumulated_fees = insert idx 0 s.tp.accumulated_fees } }
  | some _ ↦ s
]

-- What follows `ProcessL2Tx`, with the transaction as an error leaves it.
unfoldable pub settle : PoolL2Tx → Result L2Result → Pick (Unit {0})
settle tx (err _) s = discard add_non_selected err_tx_discarded_in_process_l2_tx tx s
settle tx (ok done) s =
    (next tt, record s { n_l2 = s.n_l2 + 1; selected = s.selected ++ done.tx ∷ [] })

module _ (c : Crypto) where
  -- The transaction as a `ProcessL2Tx` that returns an error leaves it: it may have noted the index of
  -- the receiver.
  unfoldable pub noted : PoolL2Tx → TxProcessor → PoolL2Tx
  noted tx p = elim (find_to_idx c tx p).0 [ ok found ↦ found | err _ ↦ tx ]

module _ (c : Crypto) (w : Setup) (future : List L1Tx) where
  -- The rejections that look at the batch's number, the amount of an exit, the sender's balance and
  -- its nonce. The transaction's token becomes the sender's.
  unfoldable pub check_sender : PoolL2Tx → Pick PoolL2Tx
  check_sender tx0 = do
    n ← gets next_batch_num
    require add_unforjable err_unsupported_max_num_batch tx0 (within_max_num_batch tx0 n)
    require add_unforjable err_exit_amount tx0 (not (is_exit tx0.type && tx0.amount == 0))
    state ← gets (λ s. s.tp.state)
    sender ← lift (get_account c tx0.from_idx state)
    let tx : PoolL2Tx = record tx0 { token_id = sender.token_id }
    let enough : Bool = (check_enough_balance c tx state).0
    require add_non_selected err_sender_not_enough_balance tx enough
    require add_non_selected err_no_current_nonce tx (tx.nonce == sender.nonce)
    pure tx

  -- The coordinator's account for the token, created where there is none. The transaction that is
  -- kept is the one before `ProcessL1Tx` writes to it.
  unfoldable pub add_coord_account : PoolL2Tx → Option L1Tx → Pick (Unit {0})
  add_coord_account tx none = pure tt
  add_coord_account tx (some l1) = do
    space ← gets (λ s. can_add_l2_tx_that_needs_new_coord_l1_tx s.n_l1 s.n_l2 w.config)
    require add_non_selected err_not_enough_space_l1_coordinator tx space
    modify (add_l1_coordinator_tx l1 w.coord_account.account_creation_auth)
    process (process_l1_tx c l1)
    modify count_l1

  unfoldable pub ensure_coord_account : PoolL2Tx → Pick (Unit {0})
  unfolding add_coord_account
  ensure_coord_account tx = do
    s ← gets (λ s. s)
    l1 ← lift (coord_account_for_token_id w.coord_account tx.token_id s.position_l1 s.tp.state)
    add_coord_account tx l1

  -- The receiver's account, where `processTxToEthAddrBJJ` says that it has to be created.
  unfoldable pub add_receiver : PoolL2Tx → NewReceiver → Pick (Unit {0})
  add_receiver tx r = elim r.l1_coordinator_tx [
    | none ↦ pure tt
    | some l1 ↦ do
      modify (
          if tx.to_eth_addr == ff_addr
          then add_l1_coordinator_tx l1 empty_eth_signature
          else elim r.acc_auth [
            | none ↦ λ s. s
            | some auth ↦ add_l1_coordinator_tx l1 auth.signature
          ])
      process (process_l1_tx c l1)
      modify count_l1
  ]

  unfoldable pub create_receiver : PoolL2Tx → Pick (Unit {0})
  unfolding add_receiver
  create_receiver tx s =
      elim (process_tx_to_eth_addr_bjj w future s.n_l1 s.n_l2 s.position_l1 tx s.tp.state) [
        | err _ ↦ discard add_non_selected err_tx_discarded_in_process_tx_to_eth_addr_bjj tx s
        | ok r ↦ add_receiver tx r s
      ]

  unfoldable pub ensure_receiver : PoolL2Tx → Pick (Unit {0})
  unfolding create_receiver
  ensure_receiver tx s =
      if tx.to_idx == 0
      then create_receiver tx s
      else if leb idx_user_threshold tx.to_idx
      then require add_non_selected err_to_idx_not_found tx
          (is_ok (get_account c tx.to_idx s.tp.state)) s
      else (next tt, s)

  -- The transaction itself: an error of `ProcessL2Tx` rejects it, with what was written before the
  -- error left written.
  unfoldable pub finish_tx : PoolL2Tx → ℕ → Pick (Unit {0})
  finish_tx tx coord_idx s =
      let (r, p) = process_l2_tx c ((tx.token_id, coord_idx) ∷ []) tx s.tp in
      settle (noted c tx s.tp) r (record s { tp = p })

  unfoldable pub take_tx : PoolL2Tx → Pick (Unit {0})
  take_tx tx = do
    state ← gets (λ s. s.tp.state)
    coord_idx ← lift (get_coord_idx w.coord_account tx.token_id state)
    modify (init_fee coord_idx)
    finish_tx tx coord_idx

  -- The body of the loop behind the test for a slot.
  unfoldable pub select_tx : PoolL2Tx → Pick (Unit {0})
  select_tx tx0 = do tx ← check_sender tx0; ensure_coord_account tx; ensure_receiver tx; take_tx tx

-- There is no slot for `tx`: its group fails, or it is put into the array of the transactions that
-- are not selected with all that are left. The inner loop writes the code to `l2Txs[i]` alone.
unfoldable pub no_slots : PoolL2Tx → List PoolL2Tx → Pick (Unit {0})
no_slots tx rest s =
    if tx.atomic_group_id == empty_atomic_group_id
    then (
      next tt,
      record s {
        non_selected = s.non_selected ++ record tx { error_code = err_no_available_slots } ∷ rest;
      },
    )
    else (
      group_failed (record {
        id = tx.atomic_group_id;
        failed_tx_id = tx.tx_id;
        reason = err_no_available_slots;
      }),
      s,
    )

-- The variables before the loop.
abbrev pub begin : TxProcessor → ℕ → ℕ → Selection
begin tp n_l1 n_l2 = record {
  tp = tp;
  n_l1 = n_l1;
  n_l2 = n_l2;
  position_l1 = n_l1;
  acc_auths = [];
  l1_coordinator_txs = [];
  selected = [];
  non_selected = [];
  unforjable = [];
}

module _ (c : Crypto) (w : Setup) (future : List L1Tx) where
  unfoldable pub select_txs : List PoolL2Tx → Pick (Unit {0})
  select_txs [] s = (next tt, s)
  select_txs (tx ∷ rest) s =
      if can_add_l2_tx s.n_l1 s.n_l2 w.config
      then (iteration (select_tx c w future tx) >> select_txs rest) s
      else no_slots tx rest s

  -- `processL2Txs`, with the numbers of the L1 and the L2 transactions that are in the batch.
  unfoldable pub process_l2_txs : TxProcessor → ℕ → ℕ → List PoolL2Tx → Flow (Unit {0}) × Selection
  process_l2_txs tp n_l1 n_l2 txs = select_txs txs (begin tp n_l1 n_l2)
