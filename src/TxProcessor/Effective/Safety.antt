-- ===== src/TxProcessor/Effective/Safety.antt =====
-- What the effective amounts of an L1 transaction guarantee (txprocessor/txprocessor.go).
use han_hermez_node.Crypto.{Crypto}
use han_hermez_node.Common.Ids.{idx_user_threshold}
use han_hermez_node.Common.Account.{Account}
use han_hermez_node.Common.Tx.{L1Tx}
use han_hermez_node.StateDb.{StateDb, get_account}
use han_hermez_node.TxProcessor.Effective.{
  no_amount, no_amounts, is_create_account_deposit, effective_create_transfer, effective_receiver,
  effective_checks, effective_sender, compute_effective_amounts,
}
use han_hermez_node.Prelude.{
  ◌+◌, ◌≤◌, ◌<◌, ◌≡◌, refl, sym, subst, ◌⊎◌, inl, inr, Bool, true, false, not, ◌&&◌, ◌||◌, arith,
  ltb, leb, ◌==◌, if◌then◌else◌, Bool-cases, ok, Result-cases,
}

module _ (c : Crypto) where
  -- The receiver has the transaction's token.
  abbrev pub ReceiverAgrees : L1Tx → StateDb → Type 0
  ReceiverAgrees tx s =
      (receiver : Account) × (get_account c tx.to_idx s ≡ ok receiver)
      × (receiver.token_id ≡ tx.token_id)

  -- The sender has the transaction's token and address, and the balance.
  abbrev pub SenderAgrees : L1Tx → StateDb → Type 0
  SenderAgrees tx s =
      (sender : Account) × (get_account c tx.from_idx s ≡ ok sender)
      × (sender.token_id ≡ tx.token_id)
      × (sender.eth_addr ≡ tx.from_eth_addr)
      × (tx.amount ≤ sender.balance + tx.deposit_amount)

  -- An L1 transaction from no account to a user's account, other than a CreateAccountDeposit, moves
  -- an amount only if the deposit covers it and the receiver exists and has the token.
  compute_effective_amounts-create_transfer :
      (tx : L1Tx) (s : StateDb)
      → tx.from_idx ≡ 0
      → idx_user_threshold ≤ tx.to_idx
      → is_create_account_deposit tx.type ≡ false
      → 0 < (compute_effective_amounts c tx s).effective_amount
      → (tx.amount ≤ tx.deposit_amount) × ReceiverAgrees tx s
  unfolding compute_effective_amounts effective_create_transfer
  compute_effective_amounts-create_transfer tx s from to type some_amount =
      elim (Result-cases (get_account c tx.to_idx s)) [
        | inl (receiver, e) ↦ (ground (arith, e), (receiver, e, ground (arith, e)))
        | inr (x, e) ↦ ground (arith, e)
      ]

  -- An L1 transaction from an account, other than a CreateAccountDeposit, moves an amount only if
  -- the sender exists with the same token and address and its balance and deposit cover the amount,
  -- and if the receiver is 0 or 1 or exists with the token.
  pub compute_effective_amounts-sender :
      (tx : L1Tx) (s : StateDb)
      → ¬ (tx.from_idx ≡ 0)
      → is_create_account_deposit tx.type ≡ false
      → 0 < (compute_effective_amounts c tx s).effective_amount
      → SenderAgrees tx s × (((tx.to_idx ≡ 0) ⊎ (tx.to_idx ≡ 1)) ⊎ ReceiverAgrees tx s)
  unfolding compute_effective_amounts effective_sender effective_checks effective_receiver
  compute_effective_amounts-sender tx s from type some_amount =
      elim (Result-cases (get_account c tx.from_idx s)) [
        | inl (sender, e) ↦ elim (Bool-cases (tx.to_idx == 1 || tx.to_idx == 0)) [
          | inl leaves ↦ (
            (sender, e, ground (arith, e), ground (arith, e), ground (arith, e)),
            inl (ground arith),
          )
          | inr stays ↦ elim (Result-cases (get_account c tx.to_idx s)) [
            | inl (receiver, e') ↦ (
              (sender, e, ground (arith, e, e'), ground (arith, e, e'), ground (arith, e, e')),
              inr (receiver, e', ground (arith, e, e', stays)),
            )
            | inr (x, e') ↦ ground (arith, e, e', stays)
          ]
        ]
        | inr (x, e) ↦ ground (arith, e)
      ]

  -- Of an L1 transaction from an account that exists, other than a CreateAccountDeposit, the
  -- effective amount is covered by the sender's balance and the effective deposit.
  pub compute_effective_amounts-covered :
      (tx : L1Tx) (s : StateDb) (sender : Account)
      → ¬ (tx.from_idx ≡ 0)
      → is_create_account_deposit tx.type ≡ false
      → get_account c tx.from_idx s ≡ ok sender
      → (compute_effective_amounts c tx s).effective_amount
        ≤ sender.balance + (compute_effective_amounts c tx s).effective_deposit_amount
  unfolding compute_effective_amounts effective_sender effective_checks effective_receiver
  compute_effective_amounts-covered tx s sender from type e =
      elim (Result-cases (get_account c tx.to_idx s)) [
        | inl (receiver, e') ↦ ground (arith, e, e')
        | inr (x, e') ↦ ground (arith, e, e')
      ]

  -- The checks only take amounts away.
  abbrev pub Lowers : L1Tx → L1Tx → Type 0
  Lowers tx e =
      (e.effective_amount ≤ tx.amount)
      × (e.effective_deposit_amount ≤ tx.deposit_amount)
      × (e.amount ≡ tx.amount)

  effective_receiver-Lowers :
      (sender : Account) (tx e : L1Tx) (s : StateDb)
      → Lowers tx e
      → Lowers tx (effective_receiver c sender e s)
  unfolding effective_receiver
  effective_receiver-Lowers sender tx e s (a, d, same) =
      elim (Result-cases (get_account c e.to_idx s)) [
        | inl (receiver, found) ↦
            (ground (arith, found), ground (arith, found), ground (arith, found))
        | inr (x, gone) ↦ (ground (arith, gone), ground (arith, gone), ground (arith, gone))
      ]

  effective_create_transfer-Lowers :
      (tx e : L1Tx) (s : StateDb) → Lowers tx e → Lowers tx (effective_create_transfer c e s)
  unfolding effective_create_transfer
  effective_create_transfer-Lowers tx e s (a, d, same) =
      elim (Result-cases (get_account c e.to_idx s)) [
        | inl (receiver, found) ↦
            (ground (arith, found), ground (arith, found), ground (arith, found))
        | inr (x, gone) ↦ (ground (arith, gone), ground (arith, gone), ground (arith, gone))
      ]

  if-Lowers :
      (tx : L1Tx) (test : Bool) (e e' : L1Tx)
      → Lowers tx e
      → Lowers tx e'
      → Lowers tx (if test then e else e')
  if-Lowers tx true e e' l l' = l
  if-Lowers tx false e e' l l' = l'

  effective_checks-Lowers :
      (sender : Account) (tx e : L1Tx) (s : StateDb)
      → Lowers tx e
      → Lowers tx (effective_checks c sender e s)
  unfolding effective_checks
  effective_checks-Lowers sender tx e s (a, d, same) =
      let low : Lowers tx (no_amount e) = (omega arith, d, same) in
      let e' : L1Tx = if e.from_eth_addr == sender.eth_addr then e else no_amount e in
      let checked : Lowers tx e' =
        if-Lowers tx (e.from_eth_addr == sender.eth_addr) e (no_amount e) (a, d, same) low in
      if-Lowers tx (not (e.token_id == sender.token_id)) (no_amounts e) _
        (omega arith, omega arith, same)
        (if-Lowers tx (ltb (sender.balance + e.effective_deposit_amount) e.amount) (no_amount e) _
          low
          (if-Lowers tx (e.to_idx == 1 || e.to_idx == 0) e' _ checked
            (effective_receiver-Lowers sender tx e' s checked)))

  effective_sender-Lowers :
      (tx e : L1Tx) (s : StateDb) → Lowers tx e → Lowers tx (effective_sender c e s)
  unfolding effective_sender
  effective_sender-Lowers tx e s (a, d, same) = elim (Result-cases (get_account c e.from_idx s)) [
    | inl (sender, found) ↦
        let is : effective_sender c e s ≡ effective_checks c sender e s =
          rw (found, effective_sender) refl in
        subst (Lowers tx) (sym is) (effective_checks-Lowers sender tx e s (a, d, same))
    | inr (x, gone) ↦ (ground (arith, gone), ground (arith, gone), ground (arith, gone))
  ]

  pub compute_effective_amounts-Lowers :
      (tx : L1Tx) (s : StateDb) → Lowers tx (compute_effective_amounts c tx s)
  unfolding compute_effective_amounts
  compute_effective_amounts-Lowers tx s =
      let e : L1Tx = record tx {
        effective_amount = tx.amount;
        effective_deposit_amount = tx.deposit_amount;
      } in
      let whole : Lowers tx e = (omega arith, omega arith, refl) in
      if-Lowers tx (not tx.user_origin) (no_amounts e) _ (omega arith, omega arith, refl)
        (if-Lowers tx (is_create_account_deposit tx.type) e _ whole (
          if-Lowers tx (leb idx_user_threshold tx.to_idx && tx.from_idx == 0)
            (effective_create_transfer c e s) _ (effective_create_transfer-Lowers tx e s whole)
            (effective_sender-Lowers tx e s whole)))
