-- ===== src/TxProcessor/Apply/Deposit.antt =====
-- `applyDeposit` (txprocessor/txprocessor.go) brings the effective deposit into the state tree.
use han_hermez_node.Exec.{Exec, ensure, pure, ◌>>◌}
use han_hermez_node.Exec.Success.{>>=-Succeeds, ensure_ok}
use han_hermez_node.Crypto.{Crypto, CryptoLaws}
use han_hermez_node.Common.Account.{Account}
use han_hermez_node.Common.Tx.{L1Tx}
use han_hermez_node.StateDb.{tree_of, get_account}
use han_hermez_node.StateDb.Tree.Invariant.{IsValid}
use han_hermez_node.StateDb.Tree.Writes.{Written, total-Written}
use han_hermez_node.TxProcessor.State.{TxProcessor, proc_update_account, read_account}
use han_hermez_node.TxProcessor.Apply.{apply_deposit, credit}
use han_hermez_node.TxProcessor.Apply.Steps.{proc_update_account-Updated}
use han_hermez_node.TxProcessor.Apply.Credit.{state_total, credit-total, Kept, Updated-Kept}
use han_hermez_node.StateDb.Tree.Balances.{balance_of-read}
use han_hermez_node.TxProcessor.Apply.Moved.{Moved, balance, kept-Moved, credit-Moved}
use han_hermez_node.Prelude.{
  ℕ, ◌+◌, ◌-◌, ◌≡◌, sym, ap, ◌∙◌, subst, Bool, true, false, arith, leb, if◌then◌else◌, Error, ok,
}

module _ (c : Crypto) (laws : CryptoLaws c) where
  -- Accounts in order with another sum of balances, and the exits and fees as they were.
  pub record Funded (added removed : ℕ) (p p' : TxProcessor) : Type 0 where
    pub valid : IsValid c (tree_of p'.state)
    pub sum : state_total c laws p' + removed ≡ state_total c laws p + added
    pub exit_same : p'.exit_tree ≡ p.exit_tree
    pub fees_same : p'.accumulated_fees ≡ p.accumulated_fees

  -- What a deposit does: the sums, and the balances of the sender, the receiver and the others
  abbrev pub Deposited : L1Tx → Bool → TxProcessor → TxProcessor → Type 0
  Deposited tx transfer p p' =
      Funded tx.effective_deposit_amount (if transfer then 0 else tx.effective_amount) p p'
      × Moved c tx.from_idx (if transfer then tx.to_idx else tx.from_idx)
          tx.effective_deposit_amount tx.effective_amount
          (if transfer then tx.effective_amount else 0) p p'

  -- The rest of a deposit, after the sender was written.
  abbrev pub after_deposit : L1Tx → Bool → Account → Exec TxProcessor (Unit {0})
  after_deposit tx transfer sender' =
      if transfer then credit c tx.to_idx tx.from_idx sender' tx.effective_amount else pure tt

  after_deposit-Deposited :
      (tx : L1Tx) (transfer : Bool) (b : Account) (p p1 : TxProcessor)
      → IsValid c (tree_of p.state)
      → b.balance + tx.effective_amount ≡ balance c tx.from_idx p + tx.effective_deposit_amount
      → Kept c laws p p1
      → Written c tx.from_idx b (tree_of p.state) (tree_of p1.state)
      → state_total c laws p1 + tx.effective_amount
        ≡ state_total c laws p + tx.effective_deposit_amount
      → (after_deposit tx transfer b p1).0 ≡ ok tt
      → Deposited tx transfer p (after_deposit tx transfer b p1).1
  after_deposit-Deposited tx false b p p1 valid paid kept w sum done = (
    record {
      valid = kept.valid;
      sum = sum;
      exit_same = kept.exit_same;
      fees_same = kept.fees_same;
    },
    kept-Moved c laws tx.from_idx b tx.effective_deposit_amount tx.effective_amount p p1 valid
        kept.valid w paid,
  )
  after_deposit-Deposited tx true b p p1 valid paid kept w sum done =
      let (then_kept, more) =
        credit-total c laws tx.to_idx tx.from_idx b tx.effective_amount (tree_of p.state) p1
          kept.valid w done in
      (
        record {
          valid = then_kept.valid;
          sum = omega (arith, more, sum);
          exit_same = then_kept.exit_same ∙ kept.exit_same;
          fees_same = then_kept.fees_same ∙ kept.fees_same;
        },
        credit-Moved c laws tx.from_idx b tx.effective_deposit_amount tx.effective_amount p p1 valid
            kept.valid w paid tx.to_idx tx.effective_amount done,
      )

  module _ (tx : L1Tx) (transfer : Bool) (p : TxProcessor)
      (valid : IsValid c (tree_of p.state)) where
    deposit_written :
        (a : Account)
        → get_account c tx.from_idx p.state ≡ ok a
        → leb tx.effective_amount (a.balance + tx.effective_deposit_amount) ≡ true
        → ((proc_update_account c tx.from_idx (record a {
          balance = (a.balance + tx.effective_deposit_amount) - tx.effective_amount;
        })
              >> after_deposit tx transfer (record a {
                balance = (a.balance + tx.effective_deposit_amount) - tx.effective_amount;
              }))
            p).0
          ≡ ok tt
        → Deposited tx transfer p
            ((proc_update_account c tx.from_idx (record a {
              balance = (a.balance + tx.effective_deposit_amount) - tx.effective_amount;
            })
                >> after_deposit tx transfer (record a {
                  balance = (a.balance + tx.effective_deposit_amount) - tx.effective_amount;
                }))
              p).1
    unfolding get_account
    deposit_written a read covered done =
        let b : Account = record a {
          balance = (a.balance + tx.effective_deposit_amount) - tx.effective_amount;
        } in
        let s =
          >>=-Succeeds (proc_update_account c tx.from_idx b) (λ _. after_deposit tx transfer b) p
            done in
        let u = proc_update_account-Updated c laws tx.from_idx b p s.first in
        let p1 : TxProcessor = (proc_update_account c tx.from_idx b p).1 in
        let moved =
          total-Written c laws tx.from_idx b (tree_of p.state) (tree_of p1.state) a valid read
            u.written in
        let kept = Updated-Kept c laws tx.from_idx b p p1 valid u in
        subst (λ q. Deposited tx transfer p q) (sym s.state)
          (after_deposit-Deposited tx transfer b p p1 valid
            (ground
              (arith, covered, balance_of-read c laws tx.from_idx (tree_of p.state) valid read))
            kept u.written (ground (arith, moved, covered)) s.rest)

    -- Given `CryptoLaws` and accounts in order: a deposit that succeeds adds the effective deposit
    -- to the sender's balance and takes the effective amount from it. One that transfers gives the
    -- effective amount to the receiver, so the sum of the balances grows by the whole deposit; one that
    -- does not takes it out of the sum. Every other balance is kept, the accounts stay in order, the
    -- exit tree and the accumulated fees as they were.
    pub apply_deposit-Deposited :
        (apply_deposit c tx transfer p).0 ≡ ok tt
        → Deposited tx transfer p (apply_deposit c tx transfer p).1
    unfolding apply_deposit
    apply_deposit-Deposited done =
        let put : Account → Account = λ a. record a {
          balance = (a.balance + tx.effective_deposit_amount) - tx.effective_amount;
        } in
        let enough : Account → Bool =
          λ a. leb tx.effective_amount (a.balance + tx.effective_deposit_amount) in
        let write : Account → Exec TxProcessor (Unit {0}) =
          λ a. proc_update_account c tx.from_idx (put a) >> after_deposit tx transfer (put a) in
        let s1 =
          >>=-Succeeds (read_account c tx.from_idx)
            (λ a. ensure (enough a) Error.not_enough_balance >> write a) p done in
        let s2 =
          >>=-Succeeds (ensure (enough s1.value) Error.not_enough_balance) (λ _. write s1.value) p
            s1.rest in
        let (covered, still) = ensure_ok (enough s1.value) Error.not_enough_balance p s2.first in
        let rest : (write s1.value p).0 ≡ ok tt =
          subst (λ q. (write s1.value q).0 ≡ ok tt) still s2.rest in
        let state : (apply_deposit c tx transfer p).1 ≡ (write s1.value p).1 =
          (s1.state ∙ s2.state) ∙ ap (λ q. (write s1.value q).1) still in
        subst (λ q. Deposited tx transfer p q) (sym state)
          (deposit_written s1.value s1.first covered rest)
