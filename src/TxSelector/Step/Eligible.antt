-- ===== src/TxSelector/Step/Eligible.antt =====
-- What the sender of a transaction that is selected has.
use han_hermez_node.Crypto.{Crypto}
use han_hermez_node.Common.Account.{Account}
use han_hermez_node.Common.Fee.{calc_fee_amount}
use han_hermez_node.Common.Tx.{L1Tx, PoolL2Tx}
use han_hermez_node.StateDb.{StateDb, get_account}
use han_hermez_node.TxProcessor.Process.{check_enough_balance}
use han_hermez_node.TxSelector.State.{
  Setup, Selection, err_no_current_nonce, err_sender_not_enough_balance, err_exit_amount,
  err_unsupported_max_num_batch,
}
use han_hermez_node.TxSelector.Pick.{next, ◌>>◌, add_non_selected, add_unforjable}
use han_hermez_node.TxSelector.Pick.Passes.{>>=-Passes, gets-Passes, lift-Passes, require-Passes}
use han_hermez_node.TxSelector.Step.{
  next_batch_num, is_exit, check_sender, ensure_coord_account, ensure_receiver, take_tx, select_tx,
}
use han_hermez_node.Prelude.{
  ℕ, ◌+◌, ◌≤◌, ◌≡◌, ap, ◌≢◌, ◌⊎◌, inl, inr, true, List, arith, ok, Result-cases,
}

-- The sender has an account with the transaction's nonce, and the amount and the fee; the next batch
-- is none that the transaction excludes; and an exit takes something out.
pub record Eligible (c : Crypto) (tx : PoolL2Tx) (s : Selection) : Type 0 where
  pub sender : Account
  pub found : get_account c tx.from_idx s.tp.state ≡ ok sender
  pub nonce : sender.nonce ≡ tx.nonce
  pub fee : ℕ
  pub fee_of : calc_fee_amount tx.amount tx.fee ≡ ok fee
  pub balance : tx.amount + fee ≤ sender.balance
  pub batch : (tx.max_num_batch ≡ 0) ⊎ (next_batch_num s ≤ tx.max_num_batch)
  pub exit : is_exit tx.type ≡ true → tx.amount ≢ 0

-- `CheckEnoughBalance` is true of an account that has the amount and the fee.
check_enough_balance-covers :
    (c : Crypto) (tx : PoolL2Tx) (s : StateDb) (a : Account)
    → get_account c tx.from_idx s ≡ ok a
    → (check_enough_balance c tx s).0 ≡ true
    → (fee : ℕ) × ((calc_fee_amount tx.amount tx.fee ≡ ok fee) × (tx.amount + fee ≤ a.balance))
unfolding check_enough_balance
check_enough_balance-covers c tx s a found enough =
    elim (Result-cases (calc_fee_amount tx.amount tx.fee)) [
      | inl (fee, e) ↦ (fee, (e, ground (arith, found, enough, e)))
      | inr (x, e) ↦ ground (arith, found, enough, e)
    ]

module _ (c : Crypto) (w : Setup) (future : List L1Tx) where
  check_sender-Eligible :
      (tx tx' : PoolL2Tx) (s s' : Selection)
      → check_sender c w future tx s ≡ (next tx', s')
      → Eligible c tx s
  unfolding check_sender
  check_sender-Eligible tx tx' s s' done =
      let n = gets-Passes next_batch_num _ s done in
      let b = require-Passes add_unforjable err_unsupported_max_num_batch tx _ _ s n in
      let d = require-Passes add_unforjable err_exit_amount tx _ _ s b.1 in
      let e = gets-Passes (λ s. s.tp.state) _ s d.1 in
      let f = lift-Passes (get_account c tx.from_idx s.tp.state) _ s e in
      let a : Account = f.0 in
      let marked : PoolL2Tx = record tx { token_id = a.token_id } in
      let g = require-Passes add_non_selected err_sender_not_enough_balance marked _ _ s f.1.1 in
      let h = require-Passes add_non_selected err_no_current_nonce marked _ _ s g.1 in
      let paid = check_enough_balance-covers c marked s.tp.state a f.1.0 g.0 in
      record {
        sender = a;
        found = f.1.0;
        nonce = ground (arith, h.0);
        fee = paid.0;
        fee_of = paid.1.0;
        balance = paid.1.1;
        batch = ground (arith, b.0);
        exit = λ is. ground (arith, d.0, is);
      }

  -- A transaction whose body goes on to its end is eligible: its sender's account in the state before
  -- has the transaction's nonce, and at least the amount and the fee; the next batch is none that the
  -- transaction excludes; and an exit has an amount.
  pub select_tx-Eligible :
      (tx : PoolL2Tx) (s s' : Selection)
      → select_tx c w future tx s ≡ (next tt, s')
      → Eligible c tx s
  unfolding select_tx
  select_tx-Eligible tx s s' done =
      let a =
        >>=-Passes (check_sender c w future tx)
          (λ tx'.
            ensure_coord_account c w future tx'
            >> (ensure_receiver c w future tx' >> take_tx c w future tx'))
          s done in
      check_sender-Eligible tx a.0 s (check_sender c w future tx s).1
        (ap (λ r. (r, (check_sender c w future tx s).1)) a.1.0)
