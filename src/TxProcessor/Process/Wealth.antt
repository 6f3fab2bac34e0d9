-- ===== src/TxProcessor/Process/Wealth.antt =====
-- `ProcessL1Tx` and `ProcessL2Tx` (txprocessor/txprocessor.go) against the balances of both trees.
use han_hermez_node.Exec.{Exec, pure, ◌>>◌}
use han_hermez_node.Exec.Success.{>>=-Succeeds}
use han_hermez_node.Crypto.{Crypto, CryptoLaws}
use han_hermez_node.Common.Tx.{L1Tx, TxType, tx_of_l1}
use han_hermez_node.StateDb.{tree_of}
use han_hermez_node.StateDb.Tree.{TreeDb}
use han_hermez_node.StateDb.Tree.Invariant.{total, IsValid}
use han_hermez_node.TxProcessor.State.{TxProcessor}
use han_hermez_node.TxProcessor.Effective.{compute_effective_amounts}
use han_hermez_node.TxProcessor.Effective.Safety.{Lowers, compute_effective_amounts-Lowers}
use han_hermez_node.TxProcessor.Apply.{
  apply_transfer, apply_deposit, apply_create_account, apply_create_account_deposit_transfer,
}
use han_hermez_node.TxProcessor.Exit.{apply_exit}
use han_hermez_node.TxProcessor.Apply.Credit.{state_total}
use han_hermez_node.TxProcessor.Apply.Created.{
  Created, apply_create_account-Created, apply_create_account_deposit_transfer-Created,
}
use han_hermez_node.TxProcessor.Apply.Deposit.{apply_deposit-Deposited}
use han_hermez_node.TxProcessor.Apply.Transfer.{apply_transfer-Transferred}
use han_hermez_node.TxProcessor.Exit.Conservation.{apply_exit-Exited}
use han_hermez_node.TxProcessor.Process.{L1Result, finish_l1, finish_exit, apply_l1, process_l1_tx}
use han_hermez_node.Prelude.{
  ℕ, ◌+◌, ◌≡◌, refl, sym, ◌∙◌, subst, Bool, true, false, Option, none, some, [], arith, ok,
}

module _ (c : Crypto) (laws : CryptoLaws c) where
  -- Both trees in order, with a sum of balances.
  pub record Holds (w : ℕ) (p : TxProcessor) : Type 0 where
    pub valid : IsValid c (tree_of p.state)
    pub exits : TreeDb
    pub exit_tree : p.exit_tree ≡ some exits
    pub exit_valid : IsValid c exits
    pub wealth : state_total c laws p + total c exits ≡ w

  finish_l1-same : (tx : L1Tx) (creates : Bool) (p : TxProcessor) → (finish_l1 c tx creates p).1 ≡ p
  unfolding finish_l1
  finish_l1-same tx creates p = ground arith

  -- A step on the state tree alone, and the end of `ProcessL1Tx`.
  then_finish :
      (m : Exec TxProcessor (Unit {0})) (tx : L1Tx) (creates : Bool) (w d : ℕ) (p : TxProcessor)
      {r : L1Result}
      → Holds w p
      → ((m p).0 ≡ ok tt
          → IsValid c (tree_of (m p).1.state)
            × (state_total c laws (m p).1 ≡ state_total c laws p + d)
            × ((m p).1.exit_tree ≡ p.exit_tree))
      → ((m >> finish_l1 c tx creates) p).0 ≡ ok r
      → Holds (w + d) ((m >> finish_l1 c tx creates) p).1
  then_finish m tx creates w d p h step done =
      let s = >>=-Succeeds m (λ _. finish_l1 c tx creates) p done in
      let (valid, sum, same) = step s.first in
      let wealth = h.wealth in
      subst (λ q. Holds (w + d) q) (sym (s.state ∙ finish_l1-same tx creates (m p).1))
        (record {
          valid = valid;
          exits = h.exits;
          exit_tree = same ∙ h.exit_tree;
          exit_valid = h.exit_valid;
          wealth = omega (arith, wealth, sum);
        })

  -- What the rollup contract lets through: a plain deposit moves no amount, and a forced transfer
  -- or exit deposits nothing. A transaction of another type than the six of L1 brings nothing.
  abbrev pub Coherent : Option TxType → L1Tx → Type 0
  Coherent (some TxType.deposit) tx = tx.amount ≡ 0
  Coherent (some TxType.create_account_deposit) tx = Unit
  Coherent (some TxType.create_account_deposit_transfer) tx = Unit
  Coherent (some TxType.deposit_transfer) tx = Unit
  Coherent _ tx = tx.deposit_amount ≡ 0

  -- The effective amounts lie below the amounts.
  module _ (tx e : L1Tx) (p : TxProcessor) (w : ℕ) (low : Lowers c tx e) (h : Holds w p) where
    created :
        {p' : TxProcessor}
        → Created c laws e.effective_deposit_amount p p'
        → IsValid c (tree_of p'.state)
          × (state_total c laws p' ≡ state_total c laws p + e.effective_deposit_amount)
          × (p'.exit_tree ≡ p.exit_tree)
    created x = let sum = x.funded.sum in (x.funded.valid, omega (arith, sum), x.funded.exit_same)

    idle : tx.deposit_amount ≡ 0 → Holds (w + e.effective_deposit_amount) (finish_l1 c tx false p).1
    idle empty =
        let (_, less, _) = low in
        let same : w ≡ w + e.effective_deposit_amount = omega arith in
        subst (λ q. Holds (w + e.effective_deposit_amount) q) (sym (finish_l1-same tx false p))
          (subst (λ n. Holds n p) same h)

    finish_exit-Holds :
        {r : L1Result}
        → tx.deposit_amount ≡ 0
        → (finish_exit c e p).0 ≡ ok r
        → Holds (w + e.effective_deposit_amount) (finish_exit c e p).1
    unfolding finish_exit tx_of_l1
    finish_exit-Holds {r} empty done =
        let (small, less, same) = low in
        let s =
          >>=-Succeeds (apply_exit c [] (tx_of_l1 e) e.amount)
            (λ l. pure (record {
              tx = e;
              exit_idx = some e.from_idx;
              exit_leaf = l;
              created_account = none;
            }))
            p done in
        let x =
          apply_exit-Exited c laws [] (tx_of_l1 e) e.amount h.exits p s.value h.exit_tree h.valid
            h.exit_valid (λ zero_amount. omega arith) s.first in
        let free = x.fee_l1 refl in
        let left = x.state_tree in
        let arrived = x.grown.sum in
        let wealth = h.wealth in
        subst (λ q. Holds (w + e.effective_deposit_amount) q) (sym s.state)
          (record {
            valid = x.valid;
            exits = x.tree;
            exit_tree = x.exit_tree;
            exit_valid = x.grown.valid;
            wealth = omega (arith, free, left, arrived, wealth, less, empty);
          })

    apply_l1-Holds :
        (type : Option TxType) {r : L1Result}
        → Coherent type tx
        → (apply_l1 c type tx e p).0 ≡ ok r
        → Holds (w + e.effective_deposit_amount) (apply_l1 c type tx e p).1
    unfolding apply_l1 tx_of_l1
    apply_l1-Holds (some TxType.deposit) coherent done =
        let (small, _, same) = low in
        then_finish (apply_deposit c e false) e false w e.effective_deposit_amount p h
          (λ ok1.
            let f = (apply_deposit-Deposited c laws e false p h.valid ok1).0 in
            let sum = f.sum in (f.valid, omega (arith, sum, small, coherent), f.exit_same))
          done
    apply_l1-Holds (some TxType.create_account_deposit) coherent done =
        then_finish (apply_create_account c e) e true w e.effective_deposit_amount p h
          (λ ok1. created (apply_create_account-Created c laws e p h.valid ok1)) done
    apply_l1-Holds (some TxType.create_account_deposit_transfer) coherent done =
        then_finish (apply_create_account_deposit_transfer c e) e true w e.effective_deposit_amount
          p h
          (λ ok1. created (apply_create_account_deposit_transfer-Created c laws e p h.valid ok1))
          done
    apply_l1-Holds (some TxType.deposit_transfer) coherent done =
        then_finish (apply_deposit c e true) e false w e.effective_deposit_amount p h
          (λ ok1.
            let f = (apply_deposit-Deposited c laws e true p h.valid ok1).0 in
            let sum = f.sum in (f.valid, omega (arith, sum), f.exit_same))
          done
    apply_l1-Holds (some TxType.force_transfer) coherent done =
        then_finish (apply_transfer c [] (tx_of_l1 e) 0) e false w e.effective_deposit_amount p h
          (λ ok1.
            let f = apply_transfer-Transferred c laws [] (tx_of_l1 e) 0 p h.valid ok1 in
            let sum = f.state_tree in
            let free = f.fee_l1 refl in
            let (_, less, _) = low in
            (f.valid, omega (arith, sum, free, less, coherent), f.exit_tree))
          done
    apply_l1-Holds (some TxType.force_exit) coherent done = finish_exit-Holds coherent done
    apply_l1-Holds (some TxType.exit) coherent done = idle coherent
    apply_l1-Holds (some TxType.transfer) coherent done = idle coherent
    apply_l1-Holds (some TxType.transfer_to_eth_addr) coherent done = idle coherent
    apply_l1-Holds (some TxType.transfer_to_bjj) coherent done = idle coherent
    apply_l1-Holds none coherent done = idle coherent

  -- Given `CryptoLaws` and both trees in order: an L1 transaction that succeeds keeps the state
  -- tree and the exit tree in order and adds exactly its effective deposit to the balances of both
  -- together, if a plain deposit moves no amount and a transaction that neither creates nor funds
  -- an account deposits nothing.
  pub process_l1_tx-Holds :
      (tx : L1Tx) (w : ℕ) (p : TxProcessor) {r : L1Result}
      → Coherent tx.type tx
      → Holds w p
      → (process_l1_tx c tx p).0 ≡ ok r
      → Holds
          (w + (compute_effective_amounts c tx p.state).effective_deposit_amount)
          (process_l1_tx c tx p).1
  unfolding process_l1_tx
  process_l1_tx-Holds tx w p coherent h done =
      apply_l1-Holds tx (compute_effective_amounts c tx p.state) p w
        (compute_effective_amounts-Lowers c tx p.state) h tx.type coherent done
