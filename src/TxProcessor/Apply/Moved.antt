-- ===== src/TxProcessor/Apply/Moved.antt =====
-- Whose balance a transfer changes (txprocessor/txprocessor.go): the sender's, the receiver's and no
-- other.
use han_hermez_node.Crypto.{Crypto, CryptoLaws}
use han_hermez_node.Common.Account.{Account}
use han_hermez_node.StateDb.{tree_of, get_account}
use han_hermez_node.StateDb.Tree.Invariant.{IsValid}
use han_hermez_node.StateDb.Tree.Writes.{Written}
use han_hermez_node.StateDb.Tree.Balances.{
  balance_of, balance_of-read, balance_of-Written, balance_of-Written_ne,
}
use han_hermez_node.TxProcessor.State.{TxProcessor}
use han_hermez_node.TxProcessor.Apply.{credit}
use han_hermez_node.TxProcessor.Apply.Credit.{credit-Received}
use han_hermez_node.Prelude.{ℕ, ◌+◌, ◌≡◌, refl, sym, ap, ◌∙◌, subst, ◌≢◌, ◌⊎◌, inl, inr, arith, ok}

module _ (c : Crypto) where
  abbrev pub balance : ℕ → TxProcessor → ℕ
  balance i p = balance_of c i (tree_of p.state)

  -- The sender gets what is added and gives what is taken, the receiver gets what is given, and every
  -- other balance is as it was. A receiver that is the sender gets both.
  pub record Moved (from to added taken given : ℕ) (p p' : TxProcessor) : Type 0 where
    pub sent : to ≢ from → balance from p' + taken ≡ balance from p + added
    pub received : to ≢ from → balance to p' ≡ balance to p + given
    pub to_itself : to ≡ from → balance from p' + taken ≡ balance from p + added + given
    pub others : (j : ℕ) → j ≢ from → j ≢ to → balance j p' ≡ balance j p

  module _ (laws : CryptoLaws c) (from : ℕ) (sender : Account) (added taken : ℕ)
      (p p1 : TxProcessor) (valid : IsValid c (tree_of p.state))
      (valid1 : IsValid c (tree_of p1.state))
      (w : Written c from sender (tree_of p.state) (tree_of p1.state))
      (paid : sender.balance + taken ≡ balance from p + added) where
    at_sender : balance from p1 + taken ≡ balance from p + added
    at_sender =
        omega (
          arith,
          paid,
          balance_of-Written c laws from sender (tree_of p.state) (tree_of p1.state) w,
        )

    elsewhere : (j : ℕ) → j ≢ from → balance j p1 ≡ balance j p
    elsewhere j ne =
        balance_of-Written_ne c laws from sender (tree_of p.state) (tree_of p1.state) w j ne valid

    pub kept-Moved : Moved from from added taken 0 p p1
    kept-Moved = record {
      sent = λ ne. absurd (ne refl);
      received = λ ne. absurd (ne refl);
      to_itself = λ e. omega (arith, at_sender);
      others = λ j ne ne'. elsewhere j ne;
    }

    module _ (to given : ℕ) where
      receiver_balance :
          (r : Account)
          → ((from ≡ to) × (sender ≡ r)) ⊎ (get_account c to p1.state ≡ ok r)
          → balance to p1 ≡ r.balance
      unfolding get_account
      receiver_balance r (inl (same, is)) =
          subst (λ (i : ℕ). balance i p1 ≡ r.balance) same
            (balance_of-Written c laws from sender (tree_of p.state) (tree_of p1.state) w
              ∙ ap (λ (a : Account). a.balance) is)
      receiver_balance r (inr read) = balance_of-read c laws to (tree_of p1.state) valid1 read

      pub credit-Moved :
          (credit c to from sender given p1).0 ≡ ok tt
          → Moved from to added taken given p (credit c to from sender given p1).1
      credit-Moved done =
          let r = credit-Received c laws to from sender given p1 done in
          let p2 : TxProcessor = (credit c to from sender given p1).1 in
          let new : Account = record r.receiver { balance = r.receiver.balance + given } in
          let here : balance to p2 ≡ balance to p1 + given =
            balance_of-Written c laws to new (tree_of p1.state) (tree_of p2.state) r.updated.written
            ∙ ap (λ (n : ℕ). n + given) (sym (receiver_balance r.receiver r.origin)) in
          let away : (j : ℕ) → j ≢ to → balance j p2 ≡ balance j p1 = λ j ne.
            balance_of-Written_ne c laws to new (tree_of p1.state) (tree_of p2.state)
              r.updated.written j ne valid1 in
          record {
            sent = λ ne. ap (λ (n : ℕ). n + taken) (away from (λ e. ne (sym e))) ∙ at_sender;
            received = λ ne. here ∙ ap (λ (n : ℕ). n + given) (elsewhere to ne);
            to_itself = λ e.
                subst (λ (i : ℕ). balance i p2 + taken ≡ balance from p + added + given) e
                  (omega (arith, here, ap (λ (i : ℕ). balance i p1) e, at_sender));
            others = λ j ne ne'. away j ne' ∙ elsewhere j ne;
          }
