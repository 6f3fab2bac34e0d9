-- ===== src/TxProcessor/Batch/Deposits.antt =====
-- The L1 transactions of a batch (`ProcessTxs`, txprocessor/txprocessor.go) against the balances of
-- both trees.
use han_hermez_node.Exec.{gets, Exec, pure, ◌>>=◌}
use han_hermez_node.Exec.Success.{>>=-Succeeds}
use han_hermez_node.Crypto.{Crypto, CryptoLaws}
use han_hermez_node.Common.Tx.{L1Tx}
use han_hermez_node.TxProcessor.State.{TxProcessor, is_synchronizer}
use han_hermez_node.TxProcessor.Effective.{compute_effective_amounts}
use han_hermez_node.TxProcessor.Effective.Safety.{compute_effective_amounts-Lowers}
use han_hermez_node.TxProcessor.Process.{L1Result, process_l1_tx}
use han_hermez_node.TxProcessor.Process.Wealth.{Holds, Coherent, process_l1_tx-Holds}
use han_hermez_node.TxProcessor.Batch.{process_l1_txs, set_effective_from}
use han_hermez_node.Prelude.{Bool, ℕ, ◌+◌, ◌≤◌, ◌≡◌, sym, ◌∙◌, subst, List, [], ◌∷◌, arith, ok}

-- What a list of transactions deposits.
abbrev pub deposits : List L1Tx → ℕ
deposits [] = 0
deposits (tx ∷ txs) = tx.deposit_amount + deposits txs

module _ (c : Crypto) (laws : CryptoLaws c) where
  abbrev pub AllCoherent : List L1Tx → Type 0
  AllCoherent [] = Unit
  AllCoherent (tx ∷ txs) = Coherent c laws tx.type tx × AllCoherent txs

  -- Given `CryptoLaws` and both trees in order: the loop over the L1 transactions of a batch, where
  -- it succeeds and each transaction deposits or moves only what its type allows, keeps both trees
  -- in order. It takes no balance away, and adds at most what the transactions deposit.
  pub process_l1_txs-Holds :
      (txs : List L1Tx) (w : ℕ) (p : TxProcessor) (rs : List L1Result)
      → AllCoherent txs
      → Holds c laws w p
      → (process_l1_txs c txs p).0 ≡ ok rs
      → (w' : ℕ) × Holds c laws w' (process_l1_txs c txs p).1 × (w ≤ w') × (w' ≤ w + deposits txs)
  unfolding process_l1_txs
  process_l1_txs-Holds [] w p rs coherent h done = (w, h, omega arith, omega arith)
  process_l1_txs-Holds (tx ∷ txs) w p rs (coherent, others) h done =
      let next : L1Result → Exec TxProcessor (List L1Result) = λ r.
        gets (λ q. is_synchronizer q.state.typ) >>= λ sync.
        process_l1_txs c txs >>= λ rest. pure (set_effective_from sync r ∷ rest) in
      let s1 = >>=-Succeeds (process_l1_tx c tx) next p done in
      let p1 : TxProcessor = (process_l1_tx c tx p).1 in
      let sync : Bool = is_synchronizer p1.state.typ in
      let s2 =
        >>=-Succeeds (process_l1_txs c txs) (λ rest. pure (set_effective_from sync s1.value ∷ rest))
          p1 s1.rest in
      let d : ℕ = (compute_effective_amounts c tx p.state).effective_deposit_amount in
      let (_, less, _) = compute_effective_amounts-Lowers c tx p.state in
      let h1 = process_l1_tx-Holds c laws tx w p coherent h s1.first in
      let (w', h2, more, most) = process_l1_txs-Holds txs (w + d) p1 s2.value others h1 s2.first in
      (
        w',
        subst (Holds c laws w') (sym (s1.state ∙ s2.state)) h2,
        omega (arith, more),
        omega (arith, most, less),
      )
