-- ===== src/TxSelector/Selection/Restart.antt =====
-- `getL1L2TxSelection` returns, however many atomic groups fail.
use han_hermez_node.Crypto.{Crypto}
use han_hermez_node.Common.Tx.{L1Tx, PoolL2Tx}
use han_hermez_node.StateDb.{StateDb, state_reset}
use han_hermez_node.TxProcessor.State.{TxProcessor}
use han_hermez_node.TxSelector.State.{Go, Setup, FailedAtomicGroup}
use han_hermez_node.TxSelector.Pick.{Flow, next, skip, group_failed, stop}
use han_hermez_node.TxSelector.Groups.{filter_failed_atomic_groups}
use han_hermez_node.TxSelector.Groups.Partition.{Permutes, filter_failed-count}
use han_hermez_node.TxSelector.Groups.Failed.{filter_failed-append}
use han_hermez_node.TxSelector.Step.Partition.{ids}
use han_hermez_node.TxSelector.Selection.{
  Chosen, Batch, new_tx_processor, process_l1_user_txs, selectable, choose, no_selection,
  end_selection, start_selection, get_l1_l2_tx_selection,
}
use han_hermez_node.TxSelector.Selection.Keeps.{Found, Ends}
use han_hermez_node.TxSelector.Selection.Finish.{
  Returns, process_l1_user_txs-length, finish_batch-Returns, selectable-count, choose-Ends,
}
use han_hermez_node.Prelude.{
  ℕ, zero, suc, ◌≤◌, ◌<◌, ◌≡◌, refl, ◌∙◌, subst, inl, inr, true, Option, none, some, List, [], ◌∷◌,
  ◌++◌, arith, length, Result, Result-cases, count_if, count_if-true, List-cases,
}

module _ (c : Crypto) (w : Setup) (go : Go) (laws : Permutes go) (future : List L1Tx)
    (pool : List PoolL2Tx) (n_user : ℕ) where
  -- The transactions that no failed group takes away.
  abbrev left : List FailedAtomicGroup → List PoolL2Tx
  left failed = (filter_failed_atomic_groups pool failed).0

  end_selection-Returns :
      (restart : List FailedAtomicGroup → StateDb → Option (Result Batch × StateDb))
      (failed : List FailedAtomicGroup) (l1 : List L1Tx) (o : Option (Flow Chosen × TxProcessor))
      → length l1 ≡ n_user
      → Ends w.config n_user (λ test. count_if (ids test) pool) (left failed) o
      → ((g : FailedAtomicGroup) (s : StateDb)
          → Found (left failed) g
          → Returns w.config n_user pool (restart (failed ++ g ∷ []) s))
      → Returns w.config n_user pool (end_selection c w go future pool restart failed l1 o)
  unfolding end_selection Ends Returns
  end_selection-Returns restart failed l1 none users h again = h
  end_selection-Returns restart failed l1 (some (next ch, p)) users h again =
      finish_batch-Returns c w future pool n_user l1 ch p.state users h
  end_selection-Returns restart failed l1 (some (skip, p)) users h again = h
  end_selection-Returns restart failed l1 (some (group_failed g, p)) users h again =
      elim (Result-cases (state_reset p.state.kv.current_batch p.state)) [
        | inl (s, e) ↦ rw (e, end_selection) (again g s h)
        | inr (x, e) ↦ rw (e, end_selection) tt
      ]
  end_selection-Returns restart failed l1 (some (stop e, p)) users h again = tt

  no_selection-Returns :
      (failed : List FailedAtomicGroup) (l1 : List L1Tx) (tp : TxProcessor)
      → n_user ≤ w.config.max_tx
      → n_user ≤ w.config.max_l1_tx
      → length l1 ≡ n_user
      → (selectable c w go future pool failed).0 ≡ []
      → Returns w.config n_user pool
          (no_selection c w go future pool (selectable c w go future pool failed).1 l1 tp)
  unfolding no_selection Returns count_if
  no_selection-Returns failed l1 tp fits fits_l1 users empty = record {
    users = users;
    all_txs = omega (arith, fits, users);
    l1_txs = omega (arith, fits_l1, users);
    auths = refl;
    counts = λ test. ground (arith, selectable-count c w go laws future pool test failed, empty);
    groups = λ a. inr (inl refl);
  }

  start_selection-Returns :
      (fuel : ℕ) (failed : List FailedAtomicGroup) (l1_user_txs : List L1Tx) (s : StateDb)
      → length (left failed) < fuel
      → n_user ≤ w.config.max_tx
      → n_user ≤ w.config.max_l1_tx
      → length l1_user_txs ≡ n_user
      → Returns w.config n_user pool (start_selection c w go future pool fuel failed l1_user_txs s)
  unfolding start_selection Returns
  start_selection-Returns zero failed l1_user_txs s enough fits fits_l1 users =
      omega (arith, enough)
  start_selection-Returns (suc fuel) failed l1_user_txs s enough fits fits_l1 users =
      let out = process_l1_user_txs c w future l1_user_txs (new_tx_processor s) in
      elim (Result-cases out.0) [
        | inr (x, e) ↦ rw (e, start_selection) tt
        | inl (l1, e) ↦
            let len : length l1 ≡ n_user =
              process_l1_user_txs-length c w future l1_user_txs (new_tx_processor s) l1 e ∙ users in
            elim (List-cases (selectable c w go future pool failed).0) [
              | inl empty ↦
                  rw (e, empty, start_selection)
                    (no_selection-Returns failed l1 out.1 fits fits_l1 len empty)
              | inr (tx, (txs, is)) ↦
                  rw (e, is, start_selection)
                    (end_selection-Returns _ failed l1
                      (choose c w go future pool (length l1) out.1 failed) len
                      (subst
                        (λ n.
                          Ends w.config n (λ test. count_if (ids test) pool) (left failed)
                            (choose c w go future pool (length l1) out.1 failed))
                        len
                        (choose-Ends c w go laws future pool (length l1) out.1 failed
                          (omega (arith, fits, len)) (omega (arith, fits_l1, len))))
                      (λ g s' found.
                        start_selection-Returns fuel (failed ++ g ∷ []) l1 s'
                          (omega (
                            arith,
                            enough,
                            found.count,
                            filter_failed-append g found.atomic pool failed,
                          ))
                          fits fits_l1 len))
            ]
      ]

-- Where the user transactions are within the limits of the batch, `sort.Slice` permutes and a loop
-- over a map visits each entry once: `getL1L2TxSelection` returns, whatever atomic groups fail. What
-- it returns without an error has the user transactions, as many as were given; it is within the
-- limits of the batch on all transactions and on the L1 ones, has one signature for each account that
-- the coordinator creates, and every transaction of the pool is selected or discarded, as often as
-- the pool has it. The transactions of an atomic group are all selected or all discarded.
pub get_l1_l2_tx_selection-Returns :
    (c : Crypto) (w : Setup) (go : Go) (future : List L1Tx) (pool : List PoolL2Tx)
    (l1_user_txs : List L1Tx) (s : StateDb)
    → Permutes go
    → length l1_user_txs ≤ w.config.max_tx
    → length l1_user_txs ≤ w.config.max_l1_tx
    → Returns w.config
        (length l1_user_txs)
        pool
        (get_l1_l2_tx_selection c w go future pool l1_user_txs s)
unfolding get_l1_l2_tx_selection count_if
get_l1_l2_tx_selection-Returns c w go future pool l1_user_txs s laws fits fits_l1 =
    let left = (filter_failed_atomic_groups pool []).0 in
    start_selection-Returns c w go laws future pool (length l1_user_txs) (suc (length pool)) []
      l1_user_txs s
      (omega
        (arith, count_if-true left, count_if-true pool, filter_failed-count (λ _ _. true) pool []))
      fits fits_l1 refl
