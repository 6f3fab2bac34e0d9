-- ===== src/TxSelector/Selection.antt =====
-- `getL1L2TxSelection` of txselector/txselector.go. The pool (`GetPendingTxs`) is a parameter, which
-- does not change while a batch is selected.
pub mod Keeps
pub mod Loop
pub mod Finish
pub mod Restart
use han_hermez_node.Exec.{Exec}
use han_hermez_node.Exec as Exec
use han_hermez_node.Crypto.{Crypto}
use han_hermez_node.Common.Tx.{L1Tx, PoolL2Tx}
use han_hermez_node.StateDb.{
  StateDb, get_account, update_account, state_make_checkpoint, state_reset,
}
use han_hermez_node.TxProcessor.State.{TxProcessor}
use han_hermez_node.TxProcessor.Process.{process_l1_tx}
use han_hermez_node.TxSelector.State.{Go, Setup, Selection, FailedAtomicGroup}
use han_hermez_node.TxSelector.Pick.{Flow, next, skip, group_failed, stop}
use han_hermez_node.TxSelector.Groups.{
  filter_failed_atomic_groups, filter_invalid_atomic_groups, calculate_atomic_groups_average_fee,
}
use han_hermez_node.TxSelector.Receiver.{get_coord_idx}
use han_hermez_node.TxSelector.Step.{process_l2_txs}
use han_hermez_node.TxSelector.Sort.{slice_stable, sort_l2_txs}
use han_hermez_node.Prelude.{
  ℕ, zero, suc, ◌+◌, Option, none, some, List, [], ◌∷◌, ◌++◌, map, ltb, if◌then◌else◌, length,
  Result, ok, err, ◌>>=◌, ◌>>◌, insert,
}

-- The variables of the selection loop.
pub record Chosen : Type 0 where
  pub tp : TxProcessor
  pub acc_auths : List ℕ
  pub l1_coordinator_txs : List L1Tx
  pub selected : List PoolL2Tx
  pub discarded : List PoolL2Tx

-- What `getL1L2TxSelection` returns without an error.
pub record Batch : Type 0 where
  pub coord_idxs : List ℕ
  pub acc_auths : List ℕ
  pub l1_user_txs : List L1Tx
  pub l1_coordinator_txs : List L1Tx
  pub l2_txs : List PoolL2Tx
  pub discarded : List PoolL2Tx

-- The results of an iteration.
abbrev pub add_iteration : Chosen → Selection → Chosen
add_iteration ch s = record {
  tp = s.tp;
  acc_auths = ch.acc_auths ++ s.acc_auths;
  l1_coordinator_txs = ch.l1_coordinator_txs ++ s.l1_coordinator_txs;
  selected = ch.selected ++ s.selected;
  discarded = ch.discarded ++ s.unforjable;
}

abbrev pub discard_rest : Chosen → Selection → Chosen
discard_rest ch s = record ch { discarded = ch.discarded ++ s.non_selected }

-- `NewTxProcessor` over the database of the selector, and the empty map of accumulated fees.
abbrev pub new_tx_processor : StateDb → TxProcessor
new_tx_processor s = record {
  state = s;
  accumulated_fees = [];
  updated_accounts = [];
  exit_tree = none;
  collected_fees = none;
}

module _ (c : Crypto) (w : Setup) (future : List L1Tx) where
  -- The selection loop, over the transactions that the last iteration did not select. It stops
  -- after an iteration that selects none. `none` is fuel that has run out, or a body that skips
  -- past the end of `processL2Txs`, which none does.
  unfoldable pub selection_loop :
      ℕ → ℕ → Chosen → List PoolL2Tx → Option (Flow Chosen × TxProcessor)
  selection_loop zero n_user ch txs = none
  selection_loop (suc fuel) n_user ch txs =
      let (r, s) =
        process_l2_txs c w future ch.tp (n_user + length ch.l1_coordinator_txs) (length ch.selected)
          txs in
      elim r [
        | next _ ↦ elim s.selected [
          | [] ↦ some (next (discard_rest (add_iteration ch s) s), s.tp)
          | _ ∷ _ ↦ selection_loop fuel n_user (add_iteration ch s) s.non_selected
        ]
        | skip ↦ none
        | group_failed g ↦ some (group_failed g, s.tp)
        | stop e ↦ some (stop e, s.tp)
      ]

  -- The user transactions, with what `ProcessL1Tx` writes to them.
  unfoldable pub process_l1_user_txs : List L1Tx → Exec TxProcessor (List L1Tx)
  process_l1_user_txs [] = Exec.pure []
  process_l1_user_txs (tx ∷ txs) =
      Exec.◌>>=◌ (process_l1_tx c tx)
        λ done. Exec.◌>>=◌ (process_l1_user_txs txs) λ rest. Exec.pure (done.tx ∷ rest)

  -- `coordIdxsMap`
  unfoldable pub coord_idxs_map : List PoolL2Tx → List (ℕ × ℕ) → StateDb → Result (List (ℕ × ℕ))
  coord_idxs_map [] m s = ok m
  coord_idxs_map (tx ∷ txs) m s =
      han_hermez_node.Prelude.◌>>=◌ (get_account c tx.from_idx s) λ sender.
        han_hermez_node.Prelude.◌>>=◌ (get_coord_idx w.coord_account sender.token_id s)
          λ idx. coord_idxs_map txs (insert sender.token_id idx m) s

  -- The accumulated fees go to the accounts of the coordinator.
  unfoldable pub add_fee : ℕ → ℕ → Exec StateDb (Unit {0})
  add_fee idx fee =
      Exec.◌>>=◌ (Exec.reads (get_account c idx))
        λ a. update_account c idx (record a { balance = a.balance + fee })

  unfoldable pub distribute_fees : List (ℕ × ℕ) → Exec StateDb (Unit {0})
  distribute_fees [] = Exec.pure tt
  distribute_fees ((idx, fee) ∷ fees) =
      Exec.◌>>◌ (if ltb 0 fee then add_fee idx fee else Exec.pure tt) (distribute_fees fees)

  -- What follows the selection loop.
  unfoldable pub finish_batch : List L1Tx → Chosen → StateDb → Result Batch × StateDb
  finish_batch l1_user_txs ch s = elim (coord_idxs_map ch.selected [] s) [
    | err e ↦ (err e, s)
    | ok m ↦
        let (r, s') = distribute_fees ch.tp.accumulated_fees s in
        elim r [
          | err e ↦ (err e, s')
          | ok _ ↦ (
            ok (record {
              coord_idxs = slice_stable ltb (map (λ e. e.1) m);
              acc_auths = ch.acc_auths;
              l1_user_txs = l1_user_txs;
              l1_coordinator_txs = ch.l1_coordinator_txs;
              l2_txs = ch.selected;
              discarded = ch.discarded;
            }),
            state_make_checkpoint s',
          )
        ]
  ]

module _ (c : Crypto) (w : Setup) (go : Go) (future : List L1Tx) (pool : List PoolL2Tx) where
  -- The transactions that can be selected, and those of groups that failed or are not valid.
  unfoldable pub selectable : List FailedAtomicGroup → List PoolL2Tx × List PoolL2Tx
  selectable failed =
      let (left, out) = filter_failed_atomic_groups pool failed in
      let (process, out') = filter_invalid_atomic_groups go left in (process, out ++ out')

  -- The selection loop over the sorted transactions, with one iteration of fuel for each and one
  -- more.
  unfoldable pub choose :
      ℕ → TxProcessor → List FailedAtomicGroup → Option (Flow Chosen × TxProcessor)
  choose n_user tp failed =
      let (txs, out) = selectable failed in
      let sorted = sort_l2_txs go txs (calculate_atomic_groups_average_fee go txs) in
      selection_loop c w future (suc (length sorted)) n_user
        (record {
          tp = tp;
          acc_auths = [];
          l1_coordinator_txs = [];
          selected = [];
          discarded = out;
        })
        sorted

  -- What follows the selection loop's end; `restart` goes back to the label START_SELECTION.
  unfoldable pub end_selection :
      (List FailedAtomicGroup → StateDb → Option (Result Batch × StateDb))
      → List FailedAtomicGroup
      → List L1Tx
      → Option (Flow Chosen × TxProcessor)
      → Option (Result Batch × StateDb)
  end_selection restart failed l1 none = none
  end_selection restart failed l1 (some (next ch, p)) = some (finish_batch c w future l1 ch p.state)
  end_selection restart failed l1 (some (skip, p)) = none
  end_selection restart failed l1 (some (stop e, p)) = some (err e, p.state)
  end_selection restart failed l1 (some (group_failed g, p)) =
      elim (state_reset p.state.kv.current_batch p.state) [
        | err e ↦ some (err e, p.state)
        | ok s ↦ restart (failed ++ g ∷ []) s
      ]

  -- There is nothing to select.
  unfoldable pub no_selection :
      List PoolL2Tx → List L1Tx → TxProcessor → Option (Result Batch × StateDb)
  no_selection out l1 tp = some (
    ok (record {
      coord_idxs = [];
      acc_auths = [];
      l1_user_txs = l1;
      l1_coordinator_txs = [];
      l2_txs = [];
      discarded = out;
    }),
    state_make_checkpoint tp.state,
  )

  -- From the label START_SELECTION; each failed group uses one unit of fuel.
  unfoldable pub start_selection :
      ℕ → List FailedAtomicGroup → List L1Tx → StateDb → Option (Result Batch × StateDb)
  start_selection zero failed l1_user_txs s = none
  start_selection (suc fuel) failed l1_user_txs s =
      let (r, tp) = process_l1_user_txs c w future l1_user_txs (new_tx_processor s) in
      elim r [
        | err e ↦ some (err e, tp.state)
        | ok l1 ↦ elim (selectable failed).0 [
          | [] ↦ no_selection (selectable failed).1 l1 tp
          | _ ∷ _ ↦
              end_selection (λ failed' s'. start_selection fuel failed' l1 s') failed l1
                (choose (length l1) tp failed)
        ]
      ]

  -- `getL1L2TxSelection`, with one start for each transaction of the pool and one more.
  unfoldable pub get_l1_l2_tx_selection : List L1Tx → StateDb → Option (Result Batch × StateDb)
  get_l1_l2_tx_selection = start_selection (suc (length pool)) []
