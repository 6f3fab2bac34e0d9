-- ===== src/TxProcessor/Effective.antt =====
-- `computeEffectiveAmounts` (txprocessor/txprocessor.go): what an L1 transaction deposits and
-- moves, after the checks that the contract leaves to the node.
pub mod Safety
use han_hermez_node.Crypto.{Crypto}
use han_hermez_node.Common.Ids.{idx_user_threshold}
use han_hermez_node.Common.Account.{Account}
use han_hermez_node.Common.Tx.{L1Tx, TxType}
use han_hermez_node.StateDb.{StateDb, get_account}
use han_hermez_node.Prelude.{
  ℕ, ◌+◌, Bool, true, false, not, ◌&&◌, ◌||◌, Option, none, some, ltb, leb, ◌==◌, if◌then◌else◌, ok,
  err,
}

-- `tx.EffectiveAmount = big.NewInt(0)`, and the same for both amounts.
abbrev pub no_amount : L1Tx → L1Tx
no_amount tx = record tx { effective_amount = 0 }

abbrev pub no_amounts : L1Tx → L1Tx
no_amounts tx = record tx { effective_deposit_amount = 0; effective_amount = 0 }

abbrev pub is_create_account_deposit : Option TxType → Bool
is_create_account_deposit (some TxType.create_account_deposit) = true
is_create_account_deposit (some TxType.exit) = false
is_create_account_deposit (some TxType.transfer) = false
is_create_account_deposit (some TxType.deposit) = false
is_create_account_deposit (some TxType.create_account_deposit_transfer) = false
is_create_account_deposit (some TxType.deposit_transfer) = false
is_create_account_deposit (some TxType.force_transfer) = false
is_create_account_deposit (some TxType.force_exit) = false
is_create_account_deposit (some TxType.transfer_to_eth_addr) = false
is_create_account_deposit (some TxType.transfer_to_bjj) = false
is_create_account_deposit none = false

module _ (c : Crypto) where
  -- The case of a CreateAccountDepositTransfer.
  unfoldable pub effective_create_transfer : L1Tx → StateDb → L1Tx
  effective_create_transfer tx s =
      if ltb tx.deposit_amount tx.amount then no_amount tx else elim (get_account c tx.to_idx s) [
        | err _ ↦ no_amounts tx
        | ok receiver ↦ if tx.token_id == receiver.token_id then tx else no_amount tx
      ]

  -- The checks of the receiver, after those of the sender.
  unfoldable pub effective_receiver : Account → L1Tx → StateDb → L1Tx
  effective_receiver sender tx s = elim (get_account c tx.to_idx s) [
    | err _ ↦ no_amounts tx
    | ok receiver ↦
        if not (sender.token_id == receiver.token_id)
        then no_amount tx
        else if not (tx.token_id == receiver.token_id)
        then no_amount tx
        else tx
  ]

  -- The checks of the sender, once it was read. A foreign address takes the amount away and does
  -- not return.
  unfoldable pub effective_checks : Account → L1Tx → StateDb → L1Tx
  unfolding effective_receiver
  effective_checks sender tx s =
      if not (tx.token_id == sender.token_id)
      then no_amounts tx
      else if ltb (sender.balance + tx.effective_deposit_amount) tx.amount
      then no_amount tx
      else let tx' = if tx.from_eth_addr == sender.eth_addr then tx else no_amount tx in
        if tx.to_idx == 1 || tx.to_idx == 0 then tx' else effective_receiver sender tx' s

  unfoldable pub effective_sender : L1Tx → StateDb → L1Tx
  unfolding effective_checks
  effective_sender tx s = elim (get_account c tx.from_idx s) [
    | err _ ↦ no_amounts tx
    | ok sender ↦ effective_checks sender tx s
  ]

  -- `computeEffectiveAmounts`
  unfoldable pub compute_effective_amounts : L1Tx → StateDb → L1Tx
  unfolding effective_create_transfer effective_sender
  compute_effective_amounts tx s =
      let tx' = record tx {
        effective_amount = tx.amount;
        effective_deposit_amount = tx.deposit_amount;
      } in
      if not tx.user_origin
      then no_amounts tx'
      else if is_create_account_deposit tx.type
      then tx'
      else if leb idx_user_threshold tx.to_idx && tx.from_idx == 0
      then effective_create_transfer tx' s
      else effective_sender tx' s
