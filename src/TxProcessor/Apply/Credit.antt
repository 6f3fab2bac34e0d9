-- ===== src/TxProcessor/Apply/Credit.antt =====
-- The two halves of a transfer (txprocessor/txprocessor.go): the write of the sender and the credit
-- of the receiver, against the sum of the balances.
use han_hermez_node.Exec.{Exec}
use han_hermez_node.Exec.Success.{>>=-Succeeds}
use han_hermez_node.Crypto.{Crypto, CryptoLaws}
use han_hermez_node.Common.Account.{Account}
use han_hermez_node.StateDb.{tree_of, get_account}
use han_hermez_node.StateDb.Tree.{TreeDb}
use han_hermez_node.StateDb.Tree.Invariant.{total, IsValid}
use han_hermez_node.StateDb.Tree.Writes.{Written, Written-IsValid, total-Written}
use han_hermez_node.TxProcessor.State.{TxProcessor, proc_update_account}
use han_hermez_node.TxProcessor.Apply.{credit, read_receiver}
use han_hermez_node.TxProcessor.Apply.Steps.{
  Updated, proc_update_account-Updated, total-Written_again,
}
use han_hermez_node.Prelude.{
  ℕ, ◌+◌, ◌≡◌, refl, sym, ap, ◌∙◌, subst, ◌⊎◌, inl, inr, arith, ◌==◌, Bool-cases, ok,
}

module _ (c : Crypto) (laws : CryptoLaws c) where
  -- Accounts in order, and the exits, the fees and the account counter as they were.
  pub record Kept (p p' : TxProcessor) : Type 0 where
    pub valid : IsValid c (tree_of p'.state)
    pub exit_same : p'.exit_tree ≡ p.exit_tree
    pub fees_same : p'.accumulated_fees ≡ p.accumulated_fees
    pub idx_same : p'.state.kv.current_idx ≡ p.state.kv.current_idx

  pub Updated-Kept :
      (i : ℕ) (a : Account) (p p' : TxProcessor)
      → IsValid c (tree_of p.state)
      → Updated c laws i a p p'
      → Kept p p'
  Updated-Kept i a p p' valid u = record {
    valid = Written-IsValid c laws i a (tree_of p.state) (tree_of p'.state) valid u.written;
    exit_same = u.exit_same;
    fees_same = u.fees_same;
    idx_same = u.idx_same;
  }

  -- The sum of the balances in the state tree.
  abbrev pub state_total : TxProcessor → ℕ
  state_total p = total c (tree_of p.state)

  -- Where the receiver's account comes from.
  read_receiver_cases :
      (to from : ℕ) (sender r : Account) (p : TxProcessor)
      → (read_receiver c to from sender p).0 ≡ ok r
      → ((read_receiver c to from sender p).1 ≡ p)
        × (((from ≡ to) × (sender ≡ r)) ⊎ (get_account c to p.state ≡ ok r))
  unfolding read_receiver
  read_receiver_cases to from sender r p e = elim (Bool-cases (to == from)) [
    | inl same ↦ (rw same refl, inl (ground arith, ground arith))
    | inr other ↦ (rw other refl, inr (ground arith))
  ]

  -- The receiver, and its account written with the amount
  pub record Received (to from : ℕ) (sender : Account) (amount : ℕ) (p p' : TxProcessor)
      : Type 0 where
    pub receiver : Account
    pub origin : ((from ≡ to) × (sender ≡ receiver)) ⊎ (get_account c to p.state ≡ ok receiver)
    pub updated : Updated c laws to (record receiver { balance = receiver.balance + amount }) p p'

  pub credit-Received :
      (to from : ℕ) (sender : Account) (amount : ℕ) (p : TxProcessor)
      → (credit c to from sender amount p).0 ≡ ok tt
      → Received to from sender amount p (credit c to from sender amount p).1
  unfolding credit
  credit-Received to from sender amount p done =
      let go : Account → Exec TxProcessor (Unit {0}) =
        λ r. proc_update_account c to (record r { balance = r.balance + amount }) in
      let s = >>=-Succeeds (read_receiver c to from sender) go p done in
      let (still, is) = read_receiver_cases to from sender s.value p s.first in
      let new : Account = record s.value { balance = s.value.balance + amount } in
      let rest : (proc_update_account c to new p).0 ≡ ok tt =
        subst (λ q. (proc_update_account c to new q).0 ≡ ok tt) still s.rest in
      let state : (credit c to from sender amount p).1 ≡ (proc_update_account c to new p).1 =
        s.state ∙ ap (λ q. (proc_update_account c to new q).1) still in
      subst (λ q. Received to from sender amount p q) (sym state)
        (record {
          receiver = s.value;
          origin = is;
          updated = proc_update_account-Updated c laws to new p rest;
        })

  module _ (to from : ℕ) (sender : Account) (amount : ℕ) (t : TreeDb) (p : TxProcessor)
      (valid : IsValid c (tree_of p.state)) (w : Written c from sender t (tree_of p.state)) where
    received_total :
        (r : Account) (t' : TreeDb)
        → ((from ≡ to) × (sender ≡ r)) ⊎ (get_account c to p.state ≡ ok r)
        → Written c to (record r { balance = r.balance + amount }) (tree_of p.state) t'
        → total c t' ≡ state_total p + amount
    unfolding get_account
    received_total r t' (inl (same, is)) u =
        let w' : Written c to r t (tree_of p.state) =
          subst (λ a. Written c to a t (tree_of p.state)) is
            (subst (λ i. Written c i sender t (tree_of p.state)) same w) in
        omega (
          arith,
          total-Written_again c laws to r p (record r { balance = r.balance + amount }) t
              (tree_of p.state) t' valid w' u,
        )
    received_total r t' (inr read) u = omega (
      arith,
      total-Written c laws to (record r { balance = r.balance + amount }) (tree_of p.state) t' r
          valid read u,
    )

    -- After the sender was written, a credit adds its amount, whoever receives it.
    pub credit-total :
        (credit c to from sender amount p).0 ≡ ok tt
        → Kept p (credit c to from sender amount p).1
          × (state_total (credit c to from sender amount p).1 ≡ state_total p + amount)
    credit-total done =
        let r = credit-Received to from sender amount p done in
        (
          Updated-Kept to (record r.receiver { balance = r.receiver.balance + amount }) p _ valid
              r.updated,
          received_total r.receiver _ r.origin r.updated.written,
        )
