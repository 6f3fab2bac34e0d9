-- ===== src/TxSelector/Step/Partition.antt =====
-- Every transaction that `processL2Txs` is given ends in one of its three arrays.
use han_hermez_node.Crypto.{Crypto}
use han_hermez_node.Common.Tx.{L1Tx, PoolL2Tx}
use han_hermez_node.TxProcessor.State.{TxProcessor, Config}
use han_hermez_node.TxSelector.State.{Setup, Selection, err_no_available_slots, FailedAtomicGroup}
use han_hermez_node.TxSelector.Pick.{next, skip, group_failed}
use han_hermez_node.TxSelector.Pick.Leads.{After}
use han_hermez_node.TxSelector.Step.{add_l1_coordinator_tx, process_l2_txs}
use han_hermez_node.TxSelector.Step.Ids.{SameIds}
use han_hermez_node.TxSelector.Step.Loop.{Loops, HasSlot-add_l1, BlamesOne, process_l2_txs-After}
use han_hermez_node.Prelude.{
  ℕ, ◌+◌, ◌≡◌, refl, ◌≢◌, Bool, false, List, [], ◌∷◌, ◌++◌, arith, count_if, count_if-append,
}

-- A test of a transaction that reads its identifier and its group's alone.
abbrev pub ids : (ℕ → ℕ → Bool) → PoolL2Tx → Bool
ids test tx = test tx.tx_id tx.atomic_group_id

-- The transactions of the three arrays that pass the test.
abbrev pub tally : (ℕ → ℕ → Bool) → Selection → ℕ
tally test s =
    count_if (ids test) s.selected
    + count_if (ids test) s.non_selected
    + count_if (ids test) s.unforjable

module _ (test : ℕ → ℕ → Bool) where
  -- One more transaction, as the loop's list has it.
  count-add :
      (tx tx' : PoolL2Tx) (rest l : List PoolL2Tx)
      → SameIds tx tx'
      → count_if (ids test) (l ++ tx' ∷ []) + count_if (ids test) rest
        ≡ count_if (ids test) l + count_if (ids test) (tx ∷ rest)
  unfolding count_if
  count-add tx tx' rest l same =
      let is : ids test tx' ≡ ids test tx = rw (same.tx_id, same.group) refl in
      ground (arith, is, count_if-append (ids test) l (tx' ∷ []))

  tally-Loops :
      (config : Config) (total : ℕ)
      → Loops config (λ txs s. tally test s + count_if (ids test) txs ≡ total)
  unfolding add_l1_coordinator_tx count_if
  tally-Loops config total = record {
    steps = λ tx rest. record {
      at_tp = λ p s h. h;
      at_l1 = λ l1 auth s space h. (h.0, HasSlot-add_l1 config l1 auth s space);
      at_unforjable = λ tx' s g same h. omega (arith, h.0, count-add tx tx' rest s.unforjable same);
      at_non_selected =
          λ tx' s g same h. omega (arith, h.0, count-add tx tx' rest s.non_selected same);
      at_selected = λ tx' s same h. omega (arith, h.0, count-add tx tx' rest s.selected same);
    };
    full = λ tx rest s e h.
        let marked : PoolL2Tx = record tx { error_code = err_no_available_slots } in
        ground (arith, h, count_if-append (ids test) s.non_selected (marked ∷ rest));
  }

-- For every test of the identifiers of a transaction and of its group: if `processL2Txs` ends
-- without a failed group and without an error, as many of the transactions that it was given pass
-- the test as of those that it returns as selected, as not selected and as not forgeable together.
-- So each is in one of the three arrays, as often as it was given.
pub process_l2_txs-tally :
    (c : Crypto) (w : Setup) (future : List L1Tx) (tp : TxProcessor) (n_l1 n_l2 : ℕ)
    (txs : List PoolL2Tx) (s : Selection) (test : ℕ → ℕ → Bool)
    → process_l2_txs c w future tp n_l1 n_l2 txs ≡ (next tt, s)
    → tally test s ≡ count_if (ids test) txs
unfolding After count_if
process_l2_txs-tally c w future tp n_l1 n_l2 txs s test done =
    let total = count_if (ids test) txs in
    let is =
      process_l2_txs-After c w future (tally-Loops test w.config total) tp n_l1 n_l2 txs (next tt) s
        (omega arith) done in
    omega (arith, is)

-- If `processL2Txs` ends with a failed group, the group and the transaction that it names are those
-- of one of the transactions that it was given, and that group is not the empty one.
pub process_l2_txs-BlamesOne :
    (c : Crypto) (w : Setup) (future : List L1Tx) (tp : TxProcessor) (n_l1 n_l2 : ℕ)
    (txs : List PoolL2Tx) (g : FailedAtomicGroup) (s : Selection)
    → process_l2_txs c w future tp n_l1 n_l2 txs ≡ (group_failed g, s)
    → BlamesOne txs g
unfolding After count_if
process_l2_txs-BlamesOne c w future tp n_l1 n_l2 txs g s done =
    process_l2_txs-After c w future
      (tally-Loops (λ _ _. false) w.config (count_if (ids (λ _ _. false)) txs)) tp n_l1 n_l2 txs
      (group_failed g) s (omega arith) done

-- The loop does not end with a `continue`.
pub process_l2_txs-skip :
    (c : Crypto) (w : Setup) (future : List L1Tx) (tp : TxProcessor) (n_l1 n_l2 : ℕ)
    (txs : List PoolL2Tx) (s : Selection)
    → process_l2_txs c w future tp n_l1 n_l2 txs ≢ (skip, s)
unfolding After count_if
process_l2_txs-skip c w future tp n_l1 n_l2 txs s done =
    process_l2_txs-After c w future
      (tally-Loops (λ _ _. false) w.config (count_if (ids (λ _ _. false)) txs)) tp n_l1 n_l2 txs
      skip s (omega arith) done
