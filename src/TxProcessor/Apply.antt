-- ===== src/TxProcessor/Apply.antt =====
-- The steps that apply a transaction to the accounts (txprocessor/txprocessor.go): `applyDeposit`,
-- `applyTransfer`, `applyCreateAccount` and `applyCreateAccountDepositTransfer`. A balance is a
-- `big.Int` that the source subtracts from and then tests for a sign: the test comes first here.
pub mod Shortage
pub mod Steps
pub mod Debit
pub mod Created
pub mod Deposit
pub mod Send
pub mod Transfer
pub mod Credit
pub mod Moved
use han_hermez_node.Exec.{Exec, lift, reads, gets, modify, pure, raise, ensure, zoom, ◌>>=◌, ◌>>◌}
use han_hermez_node.Crypto.{Crypto}
use han_hermez_node.Common.Account.{Account}
use han_hermez_node.Common.Tx.{L1Tx, Tx, tx_of_l1}
use han_hermez_node.Common.Fee.{calc_fee_amount}
use han_hermez_node.StateDb.{get_account}
use han_hermez_node.TxProcessor.State.{
  TxProcessor, read_account, proc_create_account, proc_update_account, advance_idx, is_synchronizer,
}
use han_hermez_node.Prelude.{
  ℕ, ◌+◌, ◌-◌, Bool, none, some, List, leb, ◌==◌, if◌then◌else◌, Error, ok, err, lookup, insert,
}

-- `accumulated.Add(accumulated, fee)` at an index, from zero where there is none.
unfoldable pub add_accumulated : ℕ → ℕ → TxProcessor → TxProcessor
add_accumulated idx fee p =
    let old : ℕ = elim (lookup idx p.accumulated_fees) [ none ↦ 0 | some f ↦ f ] in
    record p { accumulated_fees = insert idx (old + fee) p.accumulated_fees }

-- `collected.Add(collected, fee)` in a Synchronizer, which panics on a token that is not in the
-- map.
unfoldable pub add_collected : ℕ → ℕ → Exec TxProcessor (Unit {0})
add_collected token_id fee p =
    if is_synchronizer p.state.typ
    then elim p.collected_fees [
      | none ↦ (err Error.nil_dereference, p)
      | some m ↦ elim (lookup token_id m) [
        | none ↦ (err Error.nil_dereference, p)
        | some f ↦ (ok tt, record p { collected_fees = some (insert token_id (f + fee) m) })
      ]
    ]
    else (ok tt, p)

module _ (c : Crypto) where
  -- The fee goes to the coordinator's account of the token, where there is one.
  unfoldable pub collect_fee : List (ℕ × ℕ) → ℕ → ℕ → Exec TxProcessor (Unit {0})
  collect_fee coord_idxs_map token_id fee p = elim (lookup token_id coord_idxs_map) [
    | none ↦ (ok tt, p)
    | some coord_idx ↦ elim (get_account c coord_idx p.state) [
      | err _ ↦ (err Error.coord_idx_not_in_tree, p)
      | ok coord ↦ add_collected coord.token_id fee (add_accumulated coord.idx fee p)
    ]
  ]

  -- What `applyTransfer` and `applyExit` take from the sender's account as it was read: the amount
  -- for L1, and the amount and the fee for L2.
  unfoldable pub debit_l1 : Tx → Account → Exec TxProcessor Account
  debit_l1 tx sender = do
    ensure (leb tx.amount sender.balance) Error.not_enough_balance
    pure (record sender { balance = sender.balance - tx.amount })

  unfoldable pub debit_l2 : List (ℕ × ℕ) → Tx → Account → Exec TxProcessor Account
  debit_l2 coord_idxs_map tx sender = do
    fee ← lift (calc_fee_amount tx.amount tx.fee)
    ensure (leb (tx.amount + fee) sender.balance) Error.not_enough_balance
    collect_fee coord_idxs_map sender.token_id fee
    pure (record sender { nonce = sender.nonce + 1; balance = sender.balance - (tx.amount + fee) })

  unfoldable pub debit : List (ℕ × ℕ) → Tx → Account → Exec TxProcessor Account
  debit coord_idxs_map tx sender =
      if tx.is_l1 then debit_l1 tx sender else debit_l2 coord_idxs_map tx sender

  -- The receiver's account: the sender's own, where the two are the same.
  unfoldable pub read_receiver : ℕ → ℕ → Account → Exec TxProcessor Account
  read_receiver to_idx from_idx sender =
      if to_idx == from_idx then pure sender else read_account c to_idx

  -- Adds the amount to the receiver.
  unfoldable pub credit : ℕ → ℕ → Account → ℕ → Exec TxProcessor (Unit {0})
  credit to_idx from_idx sender amount = do
    receiver ← read_receiver to_idx from_idx sender
    proc_update_account c to_idx (record receiver { balance = receiver.balance + amount })

  -- `applyTransfer`
  unfoldable pub apply_transfer : List (ℕ × ℕ) → Tx → ℕ → Exec TxProcessor (Unit {0})
  unfolding debit credit
  apply_transfer coord_idxs_map tx aux_to_idx = do
    sender ← read_account c tx.from_idx
    sender' ← debit coord_idxs_map tx sender
    proc_update_account c tx.from_idx sender'
    credit (if aux_to_idx == 0 then tx.to_idx else aux_to_idx) tx.from_idx sender' tx.amount

  -- `applyDeposit`
  unfoldable pub apply_deposit : L1Tx → Bool → Exec TxProcessor (Unit {0})
  unfolding credit
  apply_deposit tx transfer = do
    sender ← read_account c tx.from_idx
    ensure (leb tx.effective_amount (sender.balance + tx.effective_deposit_amount))
        Error.not_enough_balance
    let sender' : Account = record sender {
      balance = (sender.balance + tx.effective_deposit_amount) - tx.effective_amount;
    }
    proc_update_account c tx.from_idx sender'
    if transfer then credit tx.to_idx tx.from_idx sender' tx.effective_amount else pure tt

  -- The account that an L1 transaction creates.
  abbrev pub new_account : L1Tx → ℕ → Account
  new_account tx balance = record {
    idx = 0;
    token_id = tx.token_id;
    batch_num = 0;
    bjj = tx.from_bjj;
    eth_addr = tx.from_eth_addr;
    nonce = 0;
    balance = balance;
  }

  -- `applyCreateAccount`
  unfoldable pub apply_create_account : L1Tx → Exec TxProcessor (Unit {0})
  apply_create_account tx = do
    idx ← gets (λ p. p.state.kv.current_idx + 1)
    proc_create_account c idx (new_account tx tx.effective_deposit_amount)
    advance_idx

  -- `applyCreateAccountDepositTransfer`
  unfoldable pub apply_create_account_deposit_transfer : L1Tx → Exec TxProcessor (Unit {0})
  unfolding credit
  apply_create_account_deposit_transfer tx = do
    aux_from_idx ← gets (λ p. p.state.kv.current_idx + 1)
    ensure (leb tx.effective_amount tx.effective_deposit_amount) Error.not_enough_balance
    let sender : Account = new_account tx (tx.effective_deposit_amount - tx.effective_amount)
    proc_create_account c aux_from_idx sender
    credit tx.to_idx aux_from_idx sender tx.effective_amount
    advance_idx
