-- ===== src/TxSelector/Selection/Loop.antt =====
-- The selection loop of `getL1L2TxSelection`: it ends, and it keeps the limits and the transactions.
use han_hermez_node.Crypto.{Crypto}
use han_hermez_node.Common.Tx.{L1Tx, PoolL2Tx}
use han_hermez_node.TxSelector.State.{Setup, Selection, empty_atomic_group_id}
use han_hermez_node.TxSelector.Pick.{next, Flow-cases}
use han_hermez_node.TxSelector.Step.{process_l2_txs}
use han_hermez_node.TxSelector.Step.Partition.{
  ids, process_l2_txs-tally, process_l2_txs-BlamesOne, process_l2_txs-skip,
}
use han_hermez_node.TxSelector.Groups.Together.{members, together, together-none}
use han_hermez_node.TxSelector.Step.Whole.{process_l2_txs-Whole}
use han_hermez_node.TxSelector.Step.Capacity.{process_l2_txs-Fits}
use han_hermez_node.TxSelector.Selection.{Chosen, add_iteration, discard_rest, selection_loop}
use han_hermez_node.TxSelector.Selection.Keeps.{
  GoesWhole, Keeps, BlamesOne-Found, Ends, Ends-weaken,
}
use han_hermez_node.Prelude.{
  ℕ, zero, suc, ◌+◌, ◌<◌, ◌≡◌, refl, ap, ◌≢◌, inl, inr, Bool, true, List, [], ◌++◌, arith, ◌==◌,
  length, length-append, count_if, count_if-append, count_if-true, List-cases,
}

module _ (c : Crypto) (w : Setup) (future : List L1Tx) (n_user : ℕ)
    (total : (ℕ → ℕ → Bool) → ℕ) where
  iteration-GoesWhole :
      (a : ℕ) (ch : Chosen) (txs : List PoolL2Tx) (s : Selection)
      → a ≢ empty_atomic_group_id
      → GoesWhole a ch txs
      → process_l2_txs c w future ch.tp
          (n_user + length ch.l1_coordinator_txs)
          (length ch.selected)
          txs
        ≡ (next tt, s)
      → GoesWhole a (add_iteration ch s) s.non_selected
  unfolding GoesWhole
  iteration-GoesWhole a ch txs s atomic h done =
      let n = n_user + length ch.l1_coordinator_txs in
      let of = λ (xs ys : List PoolL2Tx). count_if-append (ids (λ tx_id group. group == a)) xs ys in
      let split =
        process_l2_txs-tally c w future ch.tp n (length ch.selected) txs s
          (λ tx_id group. group == a) done in
      elim h [
        | inl ((e, t), only) ↦
            let is =
              process_l2_txs-Whole a atomic c w future ch.tp n (length ch.selected) txs s t done in
            let disc : members a ch.discarded ≡ 0 → members a (ch.discarded ++ s.unforjable) ≡ 0 =
              λ d. omega (arith, d, is.0, of ch.discarded s.unforjable) in
            let sel : members a s.selected ≡ 0 → members a (ch.selected ++ s.selected) ≡ 0 =
              λ x. omega (arith, e, x, of ch.selected s.selected) in
            elim only [
              | inl x ↦ inl (
                (
                  sel (omega (arith, split, x)),
                  together-none a s.non_selected (omega (arith, split, x)),
                ),
                inl (omega (arith, split, x)),
              )
              | inr d ↦ elim is.1 [
                | inl (x, t') ↦ inl ((sel x, t'), inr (disc d))
                | inr x ↦ inr (x, disc d)
              ]
            ]
        | inr (e, d) ↦
            inr (omega (arith, split, e), omega (arith, split, e, d, of ch.discarded s.unforjable))
      ]

  -- What an iteration keeps.
  iteration-Keeps :
      (ch : Chosen) (txs : List PoolL2Tx) (s : Selection)
      → Keeps w.config n_user total ch txs
      → process_l2_txs c w future ch.tp
          (n_user + length ch.l1_coordinator_txs)
          (length ch.selected)
          txs
        ≡ (next tt, s)
      → Keeps w.config n_user total (add_iteration ch s) s.non_selected
  iteration-Keeps ch txs s h done =
      let fits =
        process_l2_txs-Fits c w future ch.tp (n_user + length ch.l1_coordinator_txs)
          (length ch.selected) txs s h.all_txs h.l1_txs done in
      record {
        all_txs = omega (
          arith,
          fits.txs,
          fits.counts_l1,
          fits.counts_l2,
          length-append ch.l1_coordinator_txs s.l1_coordinator_txs,
          length-append ch.selected s.selected,
        );
        l1_txs = omega (
          arith,
          fits.l1_txs,
          fits.counts_l1,
          length-append ch.l1_coordinator_txs s.l1_coordinator_txs,
        );
        auths = omega (
          arith,
          h.auths,
          fits.auths,
          length-append ch.acc_auths s.acc_auths,
          length-append ch.l1_coordinator_txs s.l1_coordinator_txs,
        );
        counts = λ test. omega (
          arith,
          h.counts test,
          process_l2_txs-tally c w future ch.tp (n_user + length ch.l1_coordinator_txs)
              (length ch.selected) txs s test done,
          count_if-append (ids test) ch.selected s.selected,
          count_if-append (ids test) ch.discarded s.unforjable,
        );
        groups = λ a atomic. iteration-GoesWhole a ch txs s atomic (h.groups a atomic) done;
      }

  discard_rest-Keeps :
      (ch : Chosen) (s : Selection)
      → Keeps w.config n_user total ch s.non_selected
      → Keeps w.config n_user total (discard_rest ch s) []
  unfolding count_if GoesWhole together
  discard_rest-Keeps ch s h = record {
    all_txs = h.all_txs;
    l1_txs = h.l1_txs;
    auths = h.auths;
    counts = λ test.
        omega (arith, h.counts test, count_if-append (ids test) ch.discarded s.non_selected);
    groups = λ a atomic. elim (h.groups a atomic) [
      | inl ((e, t), only) ↦ inl ((e, refl), inl refl)
      | inr (e, d) ↦ inr (
        refl,
        omega (
          arith,
          e,
          d,
          count_if-append (ids (λ tx_id group. group == a)) ch.discarded s.non_selected,
        ),
      )
    ];
  }

  -- Where the batch is within its limits and each transaction is counted: with more fuel than there
  -- are transactions, the selection loop returns. If it ends without an error and without a failed
  -- group, the batch is within its limits and each transaction is selected or discarded, as often as
  -- it was counted; a group that failed is that of one of the transactions.
  pub selection_loop-Ends :
      (fuel : ℕ) (ch : Chosen) (txs : List PoolL2Tx)
      → length txs < fuel
      → Keeps w.config n_user total ch txs
      → Ends w.config n_user total txs (selection_loop c w future fuel n_user ch txs)
  unfolding selection_loop Ends
  selection_loop-Ends zero ch txs enough h = omega (arith, enough)
  selection_loop-Ends (suc fuel) ch txs enough h =
      let out =
        process_l2_txs c w future ch.tp (n_user + length ch.l1_coordinator_txs) (length ch.selected)
          txs in
      let s : Selection = out.1 in
      elim (Flow-cases out.0) [
        | inl e ↦
            let done : out ≡ (next tt, s) = ap (λ r. (r, s)) e in
            let kept = iteration-Keeps ch txs s h done in
            elim (List-cases s.selected) [
              | inl none_left ↦
                  rw (e, none_left, Ends) (discard_rest-Keeps (add_iteration ch s) s kept)
              | inr (tx, (more, is)) ↦
                  let le = λ (test : ℕ → ℕ → Bool).
                    process_l2_txs-tally c w future ch.tp (n_user + length ch.l1_coordinator_txs)
                      (length ch.selected) txs s test done in
                  let shorter : length s.non_selected < fuel =
                    let split =
                      process_l2_txs-tally c w future ch.tp (n_user + length ch.l1_coordinator_txs)
                        (length ch.selected) txs s (λ _ _. true) done in
                    omega (
                      arith,
                      enough,
                      split,
                      count_if-true txs,
                      count_if-true s.selected,
                      count_if-true s.non_selected,
                      ap length is,
                    ) in
                  rw (e, is, selection_loop)
                    (Ends-weaken w.config n_user total txs s.non_selected _
                      (λ test. omega (arith, le test))
                      (selection_loop-Ends fuel (add_iteration ch s) s.non_selected shorter kept))
            ]
        | inr (inl e) ↦
            elim (process_l2_txs-skip c w future ch.tp (n_user + length ch.l1_coordinator_txs)
              (length ch.selected) txs s (ap (λ r. (r, s)) e)) [ ]
        | inr (inr (inl (g, e))) ↦
            rw (e, Ends)
              (BlamesOne-Found txs g (
                process_l2_txs-BlamesOne c w future ch.tp (n_user + length ch.l1_coordinator_txs)
                  (length ch.selected) txs g s (ap (λ r. (r, s)) e)))
        | inr (inr (inr (x, e))) ↦ rw (e, Ends) tt
      ]
