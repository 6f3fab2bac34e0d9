-- ===== src/TxProcessor/Apply/Created.antt =====
-- `applyCreateAccount` and `applyCreateAccountDepositTransfer` (txprocessor/txprocessor.go) take the
-- next account index and bring the deposit into the state tree.
use han_hermez_node.TxProcessor.Apply.Deposit.{Funded}
use han_hermez_node.Exec.{Exec, ensure, ◌>>◌}
use han_hermez_node.Exec.Success.{>>=-Succeeds, ensure_ok}
use han_hermez_node.Crypto.{Crypto, CryptoLaws}
use han_hermez_node.KvDb.{set_current_idx}
use han_hermez_node.Common.Ids.{idx_bytes}
use han_hermez_node.Common.Account.{Account}
use han_hermez_node.Common.Tx.{L1Tx}
use han_hermez_node.StateDb.{tree_of, state_set_current_idx}
use han_hermez_node.StateDb.Tree.Invariant.{IsValid}
use han_hermez_node.StateDb.Tree.Writes.{total-Written_new}
use han_hermez_node.TxProcessor.State.{TxProcessor, proc_create_account, advance_idx}
use han_hermez_node.TxProcessor.Apply.{
  apply_create_account, apply_create_account_deposit_transfer, new_account, credit,
}
use han_hermez_node.TxProcessor.Apply.Steps.{proc_create_account-Updated}
use han_hermez_node.TxProcessor.Apply.Credit.{state_total, credit-total, Updated-Kept}
use han_hermez_node.Prelude.{
  ℕ, ◌+◌, ◌-◌, ◌≡◌, refl, sym, ap, ◌∙◌, subst, inl, inr, Bool, none, arith, leb, Error, ok,
  Result-cases, lookup,
}

module _ (c : Crypto) (laws : CryptoLaws c) where
  -- The account counter is all that `SetCurrentIdx` changes.
  advance_idx-same :
      (p : TxProcessor)
      → (tree_of (advance_idx p).1.state ≡ tree_of p.state)
        × ((advance_idx p).1.exit_tree ≡ p.exit_tree)
        × ((advance_idx p).1.accumulated_fees ≡ p.accumulated_fees)
        × ((advance_idx p).1.state.kv.current_idx ≡ p.state.kv.current_idx + 1)
  unfolding advance_idx state_set_current_idx set_current_idx
  advance_idx-same p = elim (Result-cases (idx_bytes (p.state.kv.current_idx + 1))) [
    | inl (b, e) ↦ (ground (arith, e), refl, refl, ground (arith, e))
    | inr (x, e) ↦ (ground (arith, e), refl, refl, ground (arith, e))
  ]

  -- The account counter after a step that creates an account, and the sum.
  pub record Created (added : ℕ) (p p' : TxProcessor) : Type 0 where
    pub funded : Funded c laws added 0 p p'
    pub next_idx : p'.state.kv.current_idx ≡ p.state.kv.current_idx + 1
    pub fresh : lookup (p.state.kv.current_idx + 1) (tree_of p.state).idx_leaf ≡ none

  module _ (tx : L1Tx) (p : TxProcessor) (valid : IsValid c (tree_of p.state)) where
    -- Given `CryptoLaws` and accounts in order: the creation of an account that succeeds takes the
    -- next index, which no account had, adds the effective deposit to the sum of the balances,
    -- keeps the accounts in order, and leaves the exit tree and the accumulated fees as they were.
    pub apply_create_account-Created :
        (apply_create_account c tx p).0 ≡ ok tt
        → Created tx.effective_deposit_amount p (apply_create_account c tx p).1
    unfolding apply_create_account
    apply_create_account-Created done =
        let i : ℕ = p.state.kv.current_idx + 1 in
        let a : Account = new_account c tx tx.effective_deposit_amount in
        let s = >>=-Succeeds (proc_create_account c i a) (λ _. advance_idx) p done in
        let p1 : TxProcessor = (proc_create_account c i a p).1 in
        let (fresh, u) = proc_create_account-Updated c laws i a p s.first in
        let moved =
          total-Written_new c laws i a (tree_of p.state) (tree_of p1.state) valid fresh u.written in
        let kept = Updated-Kept c laws i a p p1 valid u in
        let (tree, exits, fees, idx) = advance_idx-same p1 in
        subst (λ q. Created tx.effective_deposit_amount p q) (sym s.state)
          (record {
            funded = record {
              valid = subst (IsValid c) (sym tree) kept.valid;
              sum = rw tree (omega (arith, moved));
              exit_same = exits ∙ kept.exit_same;
              fees_same = fees ∙ kept.fees_same;
            };
            next_idx = idx ∙ ap (λ n. n + 1) kept.idx_same;
            fresh = fresh;
          })

    -- Given `CryptoLaws` and accounts in order: a creation that transfers and succeeds takes the
    -- next index, which no account had, adds the whole effective deposit to the sum of the
    -- balances, whatever part of it goes to the receiver, keeps the accounts in order, and leaves
    -- the exit tree and the accumulated fees as they were.
    pub apply_create_account_deposit_transfer-Created :
        (apply_create_account_deposit_transfer c tx p).0 ≡ ok tt
        → Created tx.effective_deposit_amount p (apply_create_account_deposit_transfer c tx p).1
    unfolding apply_create_account_deposit_transfer
    apply_create_account_deposit_transfer-Created done =
        let i : ℕ = p.state.kv.current_idx + 1 in
        let enough : Bool = leb tx.effective_amount tx.effective_deposit_amount in
        let a : Account = new_account c tx (tx.effective_deposit_amount - tx.effective_amount) in
        let move : Exec TxProcessor (Unit {0}) = credit c tx.to_idx i a tx.effective_amount in
        let s1 =
          >>=-Succeeds (ensure enough Error.not_enough_balance)
            (λ _. proc_create_account c i a >> (move >> advance_idx)) p done in
        let (covered, still) = ensure_ok enough Error.not_enough_balance p s1.first in
        let s2 =
          >>=-Succeeds (proc_create_account c i a) (λ _. move >> advance_idx) p
            (subst (λ q. ((proc_create_account c i a >> (move >> advance_idx)) q).0 ≡ ok tt) still
              s1.rest) in
        let p1 : TxProcessor = (proc_create_account c i a p).1 in
        let s3 = >>=-Succeeds move (λ _. advance_idx) p1 s2.rest in
        let p2 : TxProcessor = (move p1).1 in
        let (fresh, u) = proc_create_account-Updated c laws i a p s2.first in
        let moved =
          total-Written_new c laws i a (tree_of p.state) (tree_of p1.state) valid fresh u.written in
        let kept = Updated-Kept c laws i a p p1 valid u in
        let (then_kept, more) =
          credit-total c laws tx.to_idx i a tx.effective_amount (tree_of p.state) p1 kept.valid
            u.written s3.first in
        let (tree, exits, fees, idx) = advance_idx-same p2 in
        let state : (apply_create_account_deposit_transfer c tx p).1 ≡ (advance_idx p2).1 =
          ((s1.state ∙ ap (λ q. ((proc_create_account c i a >> (move >> advance_idx)) q).1) still)
            ∙ s2.state)
          ∙ s3.state in
        let sum : state_total c laws p2 ≡ state_total c laws p + tx.effective_deposit_amount =
          ground (arith, moved, more, covered) in
        subst (λ q. Created tx.effective_deposit_amount p q) (sym state)
          (record {
            funded = record {
              valid = subst (IsValid c) (sym tree) then_kept.valid;
              sum = rw tree (omega (arith, sum));
              exit_same = exits ∙ (then_kept.exit_same ∙ kept.exit_same);
              fees_same = fees ∙ (then_kept.fees_same ∙ kept.fees_same);
            };
            next_idx = idx ∙ ap (λ n. n + 1) (then_kept.idx_same ∙ kept.idx_same);
            fresh = fresh;
          })
