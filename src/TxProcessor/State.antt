-- ===== src/TxProcessor/State.antt =====
-- The state of the `TxProcessor` (txprocessor/txprocessor.go) where `zki` is nil, which is every
-- run over a StateDB of type Synchronizer or TxSelector.
use han_hermez_node.Exec.{Exec, reads, gets, modify, zoom, ◌>>=◌, ◌>>◌}
use han_hermez_node.Crypto.{Crypto}
use han_hermez_node.Common.Account.{Account}
use han_hermez_node.StateDb.{
  TypeStateDb, synchronizer, tx_selector, StateDb, get_account, create_account, update_account,
  state_set_current_idx,
}
use han_hermez_node.StateDb.Tree.{TreeDb}
use han_hermez_node.Prelude.{ℕ, ◌+◌, Bool, true, false, Option, List, if◌then◌else◌, insert}

-- `Config`, without what only the circuit inputs use.
pub record Config : Type 0 where
  pub max_fee_tx : ℕ
  pub max_tx : ℕ
  pub max_l1_tx : ℕ

-- `TxProcessor`, with the exit tree and the map of collected fees that `ProcessTxs` hands to the
-- steps by reference; nil is none.
pub record TxProcessor : Type 0 where
  pub state : StateDb
  pub accumulated_fees : List (ℕ × ℕ)
  pub updated_accounts : List (ℕ × Account)
  pub exit_tree : Option TreeDb
  pub collected_fees : Option (List (ℕ × ℕ))

abbrev pub is_synchronizer : TypeStateDb → Bool
is_synchronizer synchronizer = true
is_synchronizer tx_selector = false

abbrev pub set_state : StateDb → TxProcessor → TxProcessor
set_state s p = record p { state = s }

-- The write to `updatedAccounts` of a Synchronizer.
unfoldable pub note_account : ℕ → Account → TxProcessor → TxProcessor
note_account idx account p =
    if is_synchronizer p.state.typ
    then record p {
      updated_accounts = insert idx (record account { idx = idx }) p.updated_accounts;
    }
    else p

module _ (c : Crypto) where
  -- `state.GetAccount`
  abbrev pub read_account : ℕ → Exec TxProcessor Account
  read_account idx = reads (λ p. get_account c idx p.state)

  -- `createAccount` and `updateAccount`
  unfoldable pub proc_create_account : ℕ → Account → Exec TxProcessor (Unit {0})
  proc_create_account idx account = do
    modify (note_account idx account)
    zoom (λ p. p.state) set_state (create_account c idx account)

  unfoldable pub proc_update_account : ℕ → Account → Exec TxProcessor (Unit {0})
  proc_update_account idx account = do
    modify (note_account idx account)
    zoom (λ p. p.state) set_state (update_account c idx account)

-- `state.SetCurrentIdx(state.CurrentIdx() + 1)`
unfoldable pub advance_idx : Exec TxProcessor (Unit {0})
advance_idx = do
  next ← gets (λ p. p.state.kv.current_idx + 1)
  zoom (λ p. p.state) set_state (state_set_current_idx next)
