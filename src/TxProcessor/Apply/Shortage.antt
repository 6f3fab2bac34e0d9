-- ===== src/TxProcessor/Apply/Shortage.antt =====
-- What `applyTransfer` and `applyExit` do for a sender without the balance
-- (txprocessor/txprocessor.go).
use han_hermez_node.Crypto.{Crypto}
use han_hermez_node.Common.Account.{Account}
use han_hermez_node.Common.Fee.{calc_fee_amount}
use han_hermez_node.Common.Tx.{Tx}
use han_hermez_node.StateDb.{get_account}
use han_hermez_node.TxProcessor.State.{TxProcessor}
use han_hermez_node.TxProcessor.Apply.{debit_l1, debit_l2, debit, apply_transfer}
use han_hermez_node.TxProcessor.Exit.{apply_exit}
use han_hermez_node.Prelude.{
  ℕ, ◌+◌, ◌<◌, ◌≡◌, inl, inr, true, false, List, arith, Bool-cases, Error, ok, err,
}

module _ (c : Crypto) (m : List (ℕ × ℕ)) (tx : Tx) (p : TxProcessor) (sender : Account) where
  debit_short :
      (fee : ℕ)
      → (tx.is_l1 ≡ true → fee ≡ 0)
      → (tx.is_l1 ≡ false → calc_fee_amount tx.amount tx.fee ≡ ok fee)
      → sender.balance < tx.amount + fee
      → debit c m tx sender p ≡ (err Error.not_enough_balance, p)
  unfolding debit debit_l1 debit_l2
  debit_short fee l1 l2 short = elim (Bool-cases tx.is_l1) [
    | inl is_l1 ↦ let free = l1 is_l1 in ground (arith, is_l1, free, short)
    | inr is_l2 ↦ let priced = l2 is_l2 in ground (arith, is_l2, priced, short)
  ]

  -- A transfer or an exit whose amount and fee exceed the sender's balance, the fee being none for
  -- L1 and that of the selector for L2, is refused with the error for it, and nothing is written:
  -- no nonce, no fee, no balance.
  pub apply_transfer-short :
      (aux_to_idx original_amount fee : ℕ)
      → get_account c tx.from_idx p.state ≡ ok sender
      → (tx.is_l1 ≡ true → fee ≡ 0)
      → (tx.is_l1 ≡ false → calc_fee_amount tx.amount tx.fee ≡ ok fee)
      → sender.balance < tx.amount + fee
      → (apply_transfer c m tx aux_to_idx p ≡ (err Error.not_enough_balance, p))
        × (apply_exit c m tx original_amount p ≡ (err Error.not_enough_balance, p))
  unfolding apply_transfer apply_exit
  apply_transfer-short aux_to_idx original_amount fee read l1 l2 short =
      let stop = debit_short fee l1 l2 short in
      (ground (arith, read, stop), ground (arith, read, stop))
