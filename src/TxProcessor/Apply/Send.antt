-- ===== src/TxProcessor/Apply/Send.antt =====
-- The part that `applyTransfer` and `applyExit` share (txprocessor/txprocessor.go): the sender is
-- read, debited and written, and then the rest runs.
use han_hermez_node.Exec.{Exec, ◌>>=◌, ◌>>◌}
use han_hermez_node.Exec.Success.{>>=-Succeeds}
use han_hermez_node.Crypto.{Crypto, CryptoLaws}
use han_hermez_node.Common.Account.{Account}
use han_hermez_node.Common.Fee.{calc_fee_amount}
use han_hermez_node.Common.Tx.{Tx}
use han_hermez_node.StateDb.{tree_of, get_account}
use han_hermez_node.StateDb.Tree.Invariant.{IsValid}
use han_hermez_node.StateDb.Tree.Writes.{Written, Written-IsValid, total-Written}
use han_hermez_node.TxProcessor.State.{TxProcessor, proc_update_account, read_account}
use han_hermez_node.TxProcessor.Apply.{debit}
use han_hermez_node.TxProcessor.Apply.Steps.{proc_update_account-Updated}
use han_hermez_node.TxProcessor.Apply.Debit.{Debited, debit-Debited, total_fees, collected_part}
use han_hermez_node.TxProcessor.Apply.Credit.{state_total}
use han_hermez_node.Prelude.{
  ℕ, ◌+◌, ◌≡◌, ap, ◌∙◌, subst, true, false, List, arith, if◌then◌else◌, ok, lookup, sum_values,
}

module _ (c : Crypto) (laws : CryptoLaws c) where
  -- A processor whose sender was debited: the amount and the fee have left the state tree.
  pub record Sent (m : List (ℕ × ℕ)) (tx : Tx) (sender' : Account) (p p' : TxProcessor)
      : Type 0 where
    pub sender : Account
    pub read : get_account c tx.from_idx p.state ≡ ok sender
    pub fee : ℕ
    pub fee_l1 : tx.is_l1 ≡ true → fee ≡ 0
    pub fee_l2 : tx.is_l1 ≡ false → calc_fee_amount tx.amount tx.fee ≡ ok fee
    pub nonce : sender'.nonce ≡ (if tx.is_l1 then sender.nonce else sender.nonce + 1)
    pub balance : sender'.balance + (tx.amount + fee) ≡ sender.balance
    pub written : Written c tx.from_idx sender' (tree_of p.state) (tree_of p'.state)
    pub total : state_total c laws p' + (tx.amount + fee) ≡ state_total c laws p
    pub valid : IsValid c (tree_of p'.state)
    pub exit_same : p'.exit_tree ≡ p.exit_tree
    pub fees : total_fees p' ≡ total_fees p + collected_part (lookup sender.token_id m) fee
    pub idx_same : p'.state.kv.current_idx ≡ p.state.kv.current_idx

  module _ (m : List (ℕ × ℕ)) (tx : Tx) (p : TxProcessor)
      (valid : IsValid c (tree_of p.state)) where
    debit-Sent :
        (sender sender' : Account) (p1 : TxProcessor)
        → get_account c tx.from_idx p.state ≡ ok sender
        → Debited c m tx sender sender' p p1
        → (proc_update_account c tx.from_idx sender' p1).0 ≡ ok tt
        → Sent m tx sender' p (proc_update_account c tx.from_idx sender' p1).1
    unfolding get_account total_fees
    debit-Sent sender sender' p1 read d done =
        let u = proc_update_account-Updated c laws tx.from_idx sender' p1 done in
        let p2 : TxProcessor = (proc_update_account c tx.from_idx sender' p1).1 in
        let w : Written c tx.from_idx sender' (tree_of p.state) (tree_of p2.state) =
          subst (λ s. Written c tx.from_idx sender' (tree_of s) (tree_of p2.state)) d.same.state
            u.written in
        let moved =
          total-Written c laws tx.from_idx sender' (tree_of p.state) (tree_of p2.state) sender valid
            read w in
        let balance = d.balance in
        record {
          sender = sender;
          read = read;
          fee = d.fee;
          fee_l1 = d.fee_l1;
          fee_l2 = d.fee_l2;
          nonce = d.nonce;
          balance = balance;
          written = w;
          total = omega (arith, moved, balance);
          valid =
              Written-IsValid c laws tx.from_idx sender' (tree_of p.state) (tree_of p2.state) valid
                w;
          exit_same = u.exit_same ∙ d.same.exit_tree;
          fees = ap (sum_values (λ f. f)) u.fees_same ∙ d.fees;
          idx_same = u.idx_same ∙ ap (λ s. s.kv.current_idx) d.same.state;
        }

    -- The chain of the three calls and the rest.
    abbrev pub send_then : {B : Type 0} → (Account → Exec TxProcessor B) → Exec TxProcessor B
    send_then k = read_account c tx.from_idx >>= λ sender.
        debit c m tx sender >>= λ sender'. proc_update_account c tx.from_idx sender' >> k sender'

    pub record SentThen {B : Type 0} (k : Account → Exec TxProcessor B) (b : B) : Type 0 where
      pub debited : Account
      pub middle : TxProcessor
      pub sent : Sent m tx debited p middle
      pub rest : (k debited middle).0 ≡ ok b
      pub state : (send_then k p).1 ≡ (k debited middle).1

    pub send_then-Sent :
        {B : Type 0} (k : Account → Exec TxProcessor B) {b : B}
        → (send_then k p).0 ≡ ok b
        → SentThen k b
    send_then-Sent k {b} done =
        let s1 =
          >>=-Succeeds (read_account c tx.from_idx)
            (λ sender. debit c m tx sender >>= λ sender'.
              proc_update_account c tx.from_idx sender' >> k sender')
            p done in
        let s2 =
          >>=-Succeeds (debit c m tx s1.value)
            (λ sender'. proc_update_account c tx.from_idx sender' >> k sender') p s1.rest in
        let p1 : TxProcessor = (debit c m tx s1.value p).1 in
        let s3 =
          >>=-Succeeds (proc_update_account c tx.from_idx s2.value) (λ _. k s2.value) p1 s2.rest in
        let d = debit-Debited c m tx s1.value s2.value p s2.first in
        record {
          debited = s2.value;
          middle = (proc_update_account c tx.from_idx s2.value p1).1;
          sent = debit-Sent s1.value s2.value p1 s1.first d s3.first;
          rest = s3.rest;
          state = s1.state ∙ s2.state ∙ s3.state;
        }
