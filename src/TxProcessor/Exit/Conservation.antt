-- ===== src/TxProcessor/Exit/Conservation.antt =====
-- `applyExit` (txprocessor/txprocessor.go): what leaves the state tree arrives in the exit tree.
use han_hermez_node.Exec.{pure}
use han_hermez_node.Exec.Success.{>>=-Succeeds}
use han_hermez_node.Crypto.{Crypto, CryptoLaws}
use han_hermez_node.Common.Account.{Account}
use han_hermez_node.Common.Fee.{calc_fee_amount}
use han_hermez_node.Common.Tx.{Tx}
use han_hermez_node.StateDb.{tree_of, get_account}
use han_hermez_node.StateDb.Tree.{
  TreeDb, get_account_in_tree, create_account_in_tree, update_account_in_tree,
}
use han_hermez_node.StateDb.Tree.Invariant.{total, IsValid}
use han_hermez_node.StateDb.Tree.Writes.{
  create-Written, update-Written, Written-IsValid, total-Written, total-Written_new,
}
use han_hermez_node.TxProcessor.State.{TxProcessor}
use han_hermez_node.TxProcessor.Exit.{
  ExitLeaf, exit_account, is_not_found, create_exit, update_exit, add_exit, leave_tree, leave,
  apply_exit,
}
use han_hermez_node.TxProcessor.Apply.Debit.{total_fees, collected_part}
use han_hermez_node.TxProcessor.Apply.Credit.{state_total}
use han_hermez_node.TxProcessor.Apply.Send.{send_then-Sent}
use han_hermez_node.Prelude.{
  ℕ, ◌+◌, ◌≤◌, ◌≡◌, refl, sym, ap, ◌∙◌, subst, inl, inr, true, false, Option, some, List, arith,
  ◌==◌, Bool-cases, Result, ok, Result-cases, lookup,
}

module _ (c : Crypto) (laws : CryptoLaws c) where
  -- An exit tree in order, with an amount more in it.
  pub record Grown (amount : ℕ) (t t' : TreeDb) : Type 0 where
    pub valid : IsValid c t'
    pub sum : total c t' ≡ total c t + amount

  module _ (i : ℕ) (sender : Account) (amount : ℕ) (t : TreeDb) (valid : IsValid c t) where
    create_exit-Grown :
        (l : ExitLeaf)
        → (create_exit c i (exit_account sender amount) t).0 ≡ ok l
        → Grown amount t (create_exit c i (exit_account sender amount) t).1
    unfolding create_exit
    create_exit-Grown l done =
        let a = exit_account sender amount in
        let s =
          >>=-Succeeds (create_account_in_tree c i a)
            (λ _. pure (record { account = a; new_exit = true })) t done in
        let t' : TreeDb = (create_account_in_tree c i a t).1 in
        let (fresh, w) = create-Written c laws i a t s.first in
        subst (λ q. Grown amount t q) (sym s.state)
          (record {
            valid = Written-IsValid c laws i a t t' valid w;
            sum = total-Written_new c laws i a t t' valid fresh w;
          })

    update_exit-Grown :
        (l : ExitLeaf) (old : Account)
        → get_account_in_tree c i t ≡ ok old
        → (update_exit c i (record old { balance = old.balance + amount }) t).0 ≡ ok l
        → Grown amount t (update_exit c i (record old { balance = old.balance + amount }) t).1
    unfolding update_exit
    update_exit-Grown l old read done =
        let a : Account = record old { balance = old.balance + amount } in
        let s =
          >>=-Succeeds (update_account_in_tree c i a)
            (λ _. pure (record { account = a; new_exit = false })) t done in
        let t' : TreeDb = (update_account_in_tree c i a t).1 in
        let w = update-Written c laws i a t s.first in
        let moved = total-Written c laws i a t t' old valid read w in
        subst (λ q. Grown amount t q) (sym s.state)
          (record { valid = Written-IsValid c laws i a t t' valid w; sum = omega (arith, moved) })

    add_exit-Grown :
        (l : ExitLeaf)
        → (add_exit c i sender amount t).0 ≡ ok l
        → Grown amount t (add_exit c i sender amount t).1
    unfolding add_exit
    add_exit-Grown l done = elim (Result-cases (get_account_in_tree c i t)) [
      | inl (old, read) ↦
          let is : add_exit c i sender amount t
              ≡ update_exit c i (record old { balance = old.balance + amount }) t =
            rw (read, add_exit) refl in
          subst (λ r. Grown amount t r.1) (sym is)
            (update_exit-Grown l old read (sym (ap (λ r. r.0) is) ∙ done))
      | inr (x, gone) ↦ elim (Bool-cases (is_not_found x)) [
        | inl absent ↦
            let is : add_exit c i sender amount t ≡ create_exit c i (exit_account sender amount) t =
              rw (gone, absent, add_exit) refl in
            subst (λ r. Grown amount t r.1) (sym is)
              (create_exit-Grown l (sym (ap (λ r. r.0) is) ∙ done))
        | inr broken ↦ ground (arith, gone, broken)
      ]
    ]

  leave_tree-Grown :
      (i : ℕ) (sender : Account) (amount original_amount : ℕ) (t : TreeDb) (o : Option ExitLeaf)
      → IsValid c t
      → (original_amount ≡ 0 → amount ≡ 0)
      → (leave_tree c i sender amount original_amount (some t)).0 ≡ ok o
      → (t' : TreeDb) × ((leave_tree c i sender amount original_amount (some t)).1 ≡ some t')
        × Grown amount t t'
  unfolding leave_tree
  leave_tree-Grown i sender amount original_amount t o valid none_of done =
      elim (Bool-cases (original_amount == 0)) [
        | inl empty ↦
            let zero_amount = none_of (ground arith) in
            (t, rw empty refl, record { valid = valid; sum = omega arith })
        | inr some_amount ↦ elim (Result-cases (add_exit c i sender amount t).0) [
          | inl (l, e) ↦ (
            (add_exit c i sender amount t).1,
            rw some_amount refl,
            add_exit-Grown i sender amount t valid l e,
          )
          | inr (x, e) ↦ ground (arith, some_amount, e)
        ]
      ]

  -- Both trees in order. What the sender lost beside the fee is in the exit tree,
  -- and the fee waits for the coordinator where its token has a coordinator's account.
  pub record Exited (m : List (ℕ × ℕ)) (tx : Tx) (t : TreeDb) (p p' : TxProcessor) : Type 0 where
    pub sender : Account
    pub read : get_account c tx.from_idx p.state ≡ ok sender
    pub fee : ℕ
    pub fee_l1 : tx.is_l1 ≡ true → fee ≡ 0
    pub fee_l2 : tx.is_l1 ≡ false → calc_fee_amount tx.amount tx.fee ≡ ok fee
    pub covered : tx.amount + fee ≤ sender.balance
    pub state_tree : state_total c laws p' + (tx.amount + fee) ≡ state_total c laws p
    pub valid : IsValid c (tree_of p'.state)
    pub tree : TreeDb
    pub exit_tree : p'.exit_tree ≡ some tree
    pub grown : Grown tx.amount t tree
    pub fees : total_fees p' ≡ total_fees p + collected_part (lookup sender.token_id m) fee

  -- Given `CryptoLaws` and both trees in order: an exit that succeeds, with an exit tree and an
  -- amount that is zero where the original amount is, was covered by the sender's balance, takes
  -- the amount and the fee out of the state tree and puts exactly the amount into the exit tree.
  -- Both trees stay in order, and the fee is accumulated exactly where the token has a
  -- coordinator's account.
  pub apply_exit-Exited :
      (m : List (ℕ × ℕ)) (tx : Tx) (original_amount : ℕ) (t : TreeDb) (p : TxProcessor)
      (o : Option ExitLeaf)
      → p.exit_tree ≡ some t
      → IsValid c (tree_of p.state)
      → IsValid c t
      → (original_amount ≡ 0 → tx.amount ≡ 0)
      → (apply_exit c m tx original_amount p).0 ≡ ok o
      → Exited m tx t p (apply_exit c m tx original_amount p).1
  unfolding apply_exit leave total_fees
  apply_exit-Exited m tx original_amount t p o here valid exit_valid none_of done =
      let s =
        send_then-Sent c laws m tx p valid (λ a. leave c tx.from_idx a tx.amount original_amount)
          done in
      let x = s.sent in
      let now : s.middle.exit_tree ≡ some t = x.exit_same ∙ here in
      let run : Option TreeDb → Result (Option ExitLeaf) × Option TreeDb =
        leave_tree c tx.from_idx s.debited tx.amount original_amount in
      let rest : (run (some t)).0 ≡ ok o = subst (λ q. (run q).0 ≡ ok o) now s.rest in
      let (t', left, grown) =
        leave_tree-Grown tx.from_idx s.debited tx.amount original_amount t o exit_valid none_of
          rest in
      let balance = x.balance in
      subst (λ q. Exited m tx t p q) (sym s.state)
        (record {
          sender = x.sender;
          read = x.read;
          fee = x.fee;
          fee_l1 = x.fee_l1;
          fee_l2 = x.fee_l2;
          covered = omega (arith, balance);
          state_tree = x.total;
          valid = x.valid;
          tree = t';
          exit_tree = ap (λ q. (run q).1) now ∙ left;
          grown = grown;
          fees = x.fees;
        })
