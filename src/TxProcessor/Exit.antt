-- ===== src/TxProcessor/Exit.antt =====
-- `applyExit` (txprocessor/txprocessor.go): an amount that leaves the state tree for the exit tree.
pub mod Conservation
use han_hermez_node.Prelude
use han_hermez_node.Exec.{
  zoom, Exec, lift, reads, gets, modify, pure, raise, ensure, zoom, ◌>>=◌, ◌>>◌,
}
use han_hermez_node.Crypto.{Crypto}
use han_hermez_node.Common.Account.{Account}
use han_hermez_node.Common.Tx.{Tx}
use han_hermez_node.StateDb.Tree.{
  TreeDb, get_account_in_tree, create_account_in_tree, update_account_in_tree,
}
use han_hermez_node.TxProcessor.State.{TxProcessor, read_account, proc_update_account}
use han_hermez_node.TxProcessor.Apply.{debit}
use han_hermez_node.Prelude.{
  ℕ, ◌+◌, Bool, true, false, Option, none, some, List, ◌==◌, if◌then◌else◌, Error, ok, err,
}

-- The account that an exit returns, and whether its leaf is new.
pub record ExitLeaf : Type 0 where
  pub account : Account
  pub new_exit : Bool

-- A fresh leaf of the exit tree.
abbrev pub exit_account : Account → ℕ → Account
exit_account sender amount = record {
  idx = 0;
  token_id = sender.token_id;
  batch_num = 0;
  bjj = sender.bjj;
  eth_addr = sender.eth_addr;
  nonce = 0;
  balance = amount;
}

-- `tracerr.Unwrap(err) == db.ErrNotFound`
abbrev pub is_not_found : Error → Bool
is_not_found Error.not_found = true
is_not_found _ = false

module _ (c : Crypto) where
  -- The leaf in the exit tree: created, or its balance raised.
  unfoldable pub create_exit : ℕ → Account → Exec TreeDb ExitLeaf
  create_exit idx account = do
    create_account_in_tree c idx account
    pure (record { account = account; new_exit = true })

  unfoldable pub update_exit : ℕ → Account → Exec TreeDb ExitLeaf
  update_exit idx account = do
    update_account_in_tree c idx account
    pure (record { account = account; new_exit = false })

  unfoldable pub add_exit : ℕ → Account → ℕ → Exec TreeDb ExitLeaf
  unfolding create_exit update_exit
  add_exit idx sender amount t = elim (get_account_in_tree c idx t) [
    | err e ↦ if is_not_found e then create_exit idx (exit_account sender amount) t else (err e, t)
    | ok old ↦ update_exit idx (record old { balance = old.balance + amount }) t
  ]

  -- The part of `applyExit` about the exit tree: none where there is no tree or no amount.
  unfoldable pub leave_tree : ℕ → Account → ℕ → ℕ → Exec (Option TreeDb) (Option ExitLeaf)
  unfolding add_exit
  leave_tree idx sender amount original_amount none = (ok none, none)
  leave_tree idx sender amount original_amount (some t) =
      if original_amount == 0
      then (ok none, some t)
      else let (r, t') = add_exit idx sender amount t in (Prelude.◌>>=◌ r λ l. ok (some l), some t')

  unfoldable pub leave : ℕ → Account → ℕ → ℕ → Exec TxProcessor (Option ExitLeaf)
  unfolding leave_tree
  leave idx sender amount original_amount =
      zoom (λ p. p.exit_tree) (λ t p. record p { exit_tree = t })
        (leave_tree idx sender amount original_amount)

  -- `applyExit`
  unfoldable pub apply_exit : List (ℕ × ℕ) → Tx → ℕ → Exec TxProcessor (Option ExitLeaf)
  unfolding debit leave
  apply_exit coord_idxs_map tx original_amount = do
    sender ← read_account c tx.from_idx
    sender' ← debit c coord_idxs_map tx sender
    proc_update_account c tx.from_idx sender'
    leave tx.from_idx sender' tx.amount original_amount
