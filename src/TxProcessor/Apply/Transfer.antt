-- ===== src/TxProcessor/Apply/Transfer.antt =====
-- `applyTransfer` (txprocessor/txprocessor.go) moves balances and makes none.
use han_hermez_node.Crypto.{Crypto, CryptoLaws}
use han_hermez_node.Common.Account.{Account}
use han_hermez_node.Common.Fee.{calc_fee_amount}
use han_hermez_node.Common.Tx.{Tx}
use han_hermez_node.StateDb.{tree_of, get_account}
use han_hermez_node.StateDb.Tree.Invariant.{IsValid}
use han_hermez_node.TxProcessor.State.{TxProcessor}
use han_hermez_node.TxProcessor.Apply.{apply_transfer, credit}
use han_hermez_node.TxProcessor.Apply.Debit.{total_fees, collected_part}
use han_hermez_node.TxProcessor.Apply.Credit.{state_total, credit-total}
use han_hermez_node.TxProcessor.Apply.Send.{send_then-Sent}
use han_hermez_node.StateDb.Tree.Balances.{balance_of-read}
use han_hermez_node.TxProcessor.Apply.Moved.{Moved, credit-Moved}
use han_hermez_node.Prelude.{
  ℕ, ◌+◌, ◌≤◌, ◌≡◌, sym, ap, ◌∙◌, subst, true, false, List, arith, ◌==◌, if◌then◌else◌, ok, lookup,
  sum_values,
}

module _ (c : Crypto) (laws : CryptoLaws c) where
  -- The accounts are in order, the fee that the sender paid has left the state
  -- tree, and nothing else has: for an L1 transaction there is no fee, for an L2 one it is that of
  -- its selector. It waits for the coordinator where its token has a coordinator's account.
  pub record Transferred (m : List (ℕ × ℕ)) (tx : Tx) (to : ℕ) (p p' : TxProcessor) : Type 0 where
    pub sender : Account
    pub read : get_account c tx.from_idx p.state ≡ ok sender
    pub fee : ℕ
    pub fee_l1 : tx.is_l1 ≡ true → fee ≡ 0
    pub fee_l2 : tx.is_l1 ≡ false → calc_fee_amount tx.amount tx.fee ≡ ok fee
    pub covered : tx.amount + fee ≤ sender.balance
    pub state_tree : state_total c laws p' + fee ≡ state_total c laws p
    pub fees : total_fees p' ≡ total_fees p + collected_part (lookup sender.token_id m) fee
    pub valid : IsValid c (tree_of p'.state)
    pub exit_tree : p'.exit_tree ≡ p.exit_tree
    pub moved : Moved c tx.from_idx to 0 (tx.amount + fee) tx.amount p p'

  pub apply_transfer-Transferred :
      (m : List (ℕ × ℕ)) (tx : Tx) (aux_to_idx : ℕ) (p : TxProcessor)
      → IsValid c (tree_of p.state)
      → (apply_transfer c m tx aux_to_idx p).0 ≡ ok tt
      → Transferred m tx
          (if aux_to_idx == 0 then tx.to_idx else aux_to_idx)
          p
          (apply_transfer c m tx aux_to_idx p).1
  unfolding apply_transfer total_fees get_account
  apply_transfer-Transferred m tx aux_to_idx p valid done =
      let to : ℕ = if aux_to_idx == 0 then tx.to_idx else aux_to_idx in
      let s = send_then-Sent c laws m tx p valid (λ a. credit c to tx.from_idx a tx.amount) done in
      let x = s.sent in
      let (kept, sum) =
        credit-total c laws to tx.from_idx s.debited tx.amount (tree_of p.state) s.middle x.valid
          x.written s.rest in
      let moved = x.total in
      let balance = x.balance in
      subst (λ q. Transferred m tx to p q) (sym s.state)
        (record {
          sender = x.sender;
          read = x.read;
          fee = x.fee;
          fee_l1 = x.fee_l1;
          fee_l2 = x.fee_l2;
          covered = omega (arith, balance);
          state_tree = omega (arith, moved, sum);
          fees = ap (sum_values (λ f. f)) kept.fees_same ∙ x.fees;
          valid = kept.valid;
          exit_tree = kept.exit_same ∙ x.exit_same;
          moved =
              credit-Moved c laws tx.from_idx s.debited 0 (tx.amount + x.fee) p s.middle valid
                x.valid x.written
                (omega (
                  arith,
                  balance,
                  balance_of-read c laws tx.from_idx (tree_of p.state) valid x.read,
                ))
                to tx.amount s.rest;
        })
