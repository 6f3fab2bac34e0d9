-- ===== src/TxSelector/Step/Capacity.antt =====
-- The batch's limits on its transactions, and the counters that `processL2Txs` tests them with.
use han_hermez_node.Crypto.{Crypto}
use han_hermez_node.Common.Tx.{L1Tx, PoolL2Tx}
use han_hermez_node.TxProcessor.State.{TxProcessor, Config}
use han_hermez_node.TxSelector.State.{
  Setup, Selection, can_add_l2_tx, can_add_l2_tx_that_needs_new_coord_l1_tx,
}
use han_hermez_node.TxSelector.Pick.{next}
use han_hermez_node.TxSelector.Pick.Leads.{After}
use han_hermez_node.TxSelector.Step.{add_l1_coordinator_tx, process_l2_txs}
use han_hermez_node.TxSelector.Step.Loop.{Loops, HasSlot-add_l1, process_l2_txs-After}
use han_hermez_node.Prelude.{ℕ, ◌+◌, ◌≤◌, ◌≡◌, refl, List, [], ◌∷◌, arith, length, length-append}

-- The transactions of the batch are within the limits, where `n_l1` and `n_l2` were in it before;
-- the counters and the positions are those of the arrays, and every created account has a
-- signature.
pub record Fits (config : Config) (n_l1 n_l2 : ℕ) (s : Selection) : Type 0 where
  pub txs : s.n_l1 + s.n_l2 ≤ config.max_tx
  pub l1_txs : s.n_l1 ≤ config.max_l1_tx
  pub counts_l1 : s.n_l1 ≡ n_l1 + length s.l1_coordinator_txs
  pub counts_l2 : s.n_l2 ≡ n_l2 + length s.selected
  pub auths : length s.acc_auths ≡ length s.l1_coordinator_txs
  pub position : s.position_l1 ≡ s.n_l1

module _ (config : Config) (n_l1 n_l2 : ℕ) where
  Fits-Loops : Loops config (λ _. Fits config n_l1 n_l2)
  unfolding can_add_l2_tx can_add_l2_tx_that_needs_new_coord_l1_tx add_l1_coordinator_tx
  Fits-Loops = record {
    steps = λ tx rest. record {
      at_tp = λ p s h. (
        record {
          txs = h.0.txs;
          l1_txs = h.0.l1_txs;
          counts_l1 = h.0.counts_l1;
          counts_l2 = h.0.counts_l2;
          auths = h.0.auths;
          position = h.0.position;
        },
        h.1,
      );
      at_l1 = λ l1 auth s space h. (
        record {
          txs = ground (arith, space);
          l1_txs = ground (arith, space);
          counts_l1 = omega (arith, h.0.counts_l1, length-append s.l1_coordinator_txs (l1 ∷ []));
          counts_l2 = h.0.counts_l2;
          auths = omega (
            arith,
            h.0.auths,
            length-append s.l1_coordinator_txs (l1 ∷ []),
            length-append s.acc_auths (auth ∷ []),
          );
          position = omega (arith, h.0.position);
        },
        HasSlot-add_l1 config l1 auth s space,
      );
      at_unforjable = λ tx' s g same h. record {
        txs = h.0.txs;
        l1_txs = h.0.l1_txs;
        counts_l1 = h.0.counts_l1;
        counts_l2 = h.0.counts_l2;
        auths = h.0.auths;
        position = h.0.position;
      };
      at_non_selected = λ tx' s g same h. record {
        txs = h.0.txs;
        l1_txs = h.0.l1_txs;
        counts_l1 = h.0.counts_l1;
        counts_l2 = h.0.counts_l2;
        auths = h.0.auths;
        position = h.0.position;
      };
      at_selected = λ tx' s same h. record {
        txs = ground (arith, h.1);
        l1_txs = h.0.l1_txs;
        counts_l1 = h.0.counts_l1;
        counts_l2 = omega (arith, h.0.counts_l2, length-append s.selected (tx' ∷ []));
        auths = h.0.auths;
        position = h.0.position;
      };
    };
    full = λ tx rest s e h. record {
      txs = h.txs;
      l1_txs = h.l1_txs;
      counts_l1 = h.counts_l1;
      counts_l2 = h.counts_l2;
      auths = h.auths;
      position = h.position;
    };
  }

-- Where `n_l1` L1 and `n_l2` L2 transactions are in the batch, within the limits on all transactions
-- and on the L1 ones: if `processL2Txs` ends without a failed group and without an error, the batch
-- is within both limits with the L1 transactions that it added and the L2 transactions that it
-- selected; there is one signature for each added L1 transaction; and the counters and the next
-- position are those of the arrays.
pub process_l2_txs-Fits :
    (c : Crypto) (w : Setup) (future : List L1Tx) (tp : TxProcessor) (n_l1 n_l2 : ℕ)
    (txs : List PoolL2Tx) (s : Selection)
    → n_l1 + n_l2 ≤ w.config.max_tx
    → n_l1 ≤ w.config.max_l1_tx
    → process_l2_txs c w future tp n_l1 n_l2 txs ≡ (next tt, s)
    → Fits w.config n_l1 n_l2 s
unfolding After
process_l2_txs-Fits c w future tp n_l1 n_l2 txs s fits fits_l1 done =
    process_l2_txs-After c w future (Fits-Loops w.config n_l1 n_l2) tp n_l1 n_l2 txs (next tt) s
      (record {
        txs = fits;
        l1_txs = fits_l1;
        counts_l1 = omega arith;
        counts_l2 = omega arith;
        auths = refl;
        position = refl;
      })
      done
