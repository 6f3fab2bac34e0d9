-- ===== src/TxProcessor/Batch.antt =====
-- `ProcessTxs` (txprocessor/txprocessor.go): the transactions of a batch, the distribution of the
-- fees and the checkpoint.
pub mod Deposits
use han_hermez_node.Exec.{Exec, reads, gets, modify, pure, ensure, ◌>>=◌, ◌>>◌}
use han_hermez_node.Crypto.{Crypto}
use han_hermez_node.Common.Account.{Account}
use han_hermez_node.Common.Tx.{L1Tx, PoolL2Tx}
use han_hermez_node.StateDb.{get_token_ids_from_idxs, state_make_checkpoint}
use han_hermez_node.TxProcessor.State.{
  Config, TxProcessor, read_account, proc_update_account, is_synchronizer,
}
use han_hermez_node.TxProcessor.Exit.{ExitLeaf}
use han_hermez_node.TxProcessor.Process.{L1Result, L2Result, process_l1_tx, process_l2_tx}
use han_hermez_node.Prelude.{
  ℕ, ◌+◌, Bool, true, Option, none, some, List, [], ◌∷◌, ◌++◌, leb, if◌then◌else◌, length, Error,
  ok_or, lookup, insert,
}

-- `ProcessTxOutput`. An `ExitInfo` is its index and balance: the Merkle proof is not modelled.
pub record ProcessTxOutput : Type 0 where
  pub exit_infos : List (ℕ × ℕ)
  pub created_accounts : List Account
  pub coordinator_idxs_map : List (ℕ × ℕ)
  pub collected_fees : Option (List (ℕ × ℕ))
  pub updated_accounts : List (ℕ × Account)

-- The exit tree is made for a Synchronizer alone, where the map of updated accounts is made anew.
unfoldable pub start_batch : TxProcessor → TxProcessor
start_batch p =
    if is_synchronizer p.state.typ
    then record p {
      updated_accounts = [];
      exit_tree = some (record { idx_leaf = []; leaf_bytes = []; mt = some [] });
    }
    else record p { exit_tree = none }

-- A map with zero at every key.
abbrev pub zeros : List ℕ → List (ℕ × ℕ)
zeros [] = []
zeros (k ∷ ks) = insert k 0 (zeros ks)

abbrev pub keys : List (ℕ × ℕ) → List ℕ
keys [] = []
keys ((k, _) ∷ m) = k ∷ keys m

unfoldable pub start_fees : List (ℕ × ℕ) → TxProcessor → TxProcessor
start_fees coord_idxs_map p = record p {
  collected_fees = if is_synchronizer p.state.typ then some (zeros (keys coord_idxs_map)) else none;
}

-- The exits in the order of their transactions: `exitInfosByIdx` keeps the last of an index, in the
-- place of its first.
abbrev pub add_exit_info : Option ℕ → Option ExitLeaf → List (ℕ × ℕ) → List (ℕ × ℕ)
add_exit_info none leaf infos = infos
add_exit_info (some idx) none infos = infos
add_exit_info (some idx) (some l) infos = insert idx l.account.balance infos

unfoldable pub exit_infos_l1 : List L1Result → List (ℕ × ℕ) → List (ℕ × ℕ)
exit_infos_l1 [] infos = infos
exit_infos_l1 (r ∷ rs) infos = exit_infos_l1 rs (add_exit_info r.exit_idx r.exit_leaf infos)

unfoldable pub exit_infos_l2 : List L2Result → List (ℕ × ℕ) → List (ℕ × ℕ)
exit_infos_l2 [] infos = infos
exit_infos_l2 (r ∷ rs) infos = exit_infos_l2 rs (add_exit_info r.exit_idx r.exit_leaf infos)

unfoldable pub created_accounts_of : List L1Result → List Account
created_accounts_of [] = []
created_accounts_of (r ∷ rs) = elim r.created_account [
  | none ↦ created_accounts_of rs
  | some a ↦ a ∷ created_accounts_of rs
]

-- A Synchronizer records the sender of an L1 transaction: the account that it created, or its own.
abbrev pub effective_from : Option Account → ℕ → ℕ
effective_from none from_idx = from_idx
effective_from (some a) from_idx = a.idx

unfoldable pub set_effective_from : Bool → L1Result → L1Result
set_effective_from sync r =
    if sync
    then record r {
      tx = record r.tx { effective_from_idx = effective_from r.created_account r.tx.from_idx };
    }
    else r

module _ (c : Crypto) where
  -- The loops over the transactions.
  unfoldable pub process_l1_txs : List L1Tx → Exec TxProcessor (List L1Result)
  process_l1_txs [] = pure []
  process_l1_txs (tx ∷ txs) = do
    r ← process_l1_tx c tx
    sync ← gets (λ p. is_synchronizer p.state.typ)
    rs ← process_l1_txs txs
    pure (set_effective_from sync r ∷ rs)

  unfoldable pub process_l2_txs : List (ℕ × ℕ) → List PoolL2Tx → Exec TxProcessor (List L2Result)
  process_l2_txs coord_idxs_map [] = pure []
  process_l2_txs coord_idxs_map (tx ∷ txs) = do
    r ← process_l2_tx c coord_idxs_map tx
    rs ← process_l2_txs coord_idxs_map txs
    pure (r ∷ rs)

  -- `filteredCoordIdxs`: the first index of each token.
  unfoldable pub filter_coord_idxs : List (ℕ × Bool) → List ℕ → Exec TxProcessor (List ℕ)
  filter_coord_idxs used [] = pure []
  filter_coord_idxs used (idx ∷ idxs) = do
    coord ← read_account c idx
    rest ← filter_coord_idxs (insert coord.token_id true used) idxs
    pure (elim (lookup coord.token_id used) [ none ↦ idx ∷ rest | some _ ↦ rest ])

  -- The accumulated fees go to the coordinator's accounts.
  unfoldable pub distribute_fees : List ℕ → Exec TxProcessor (Unit {0})
  distribute_fees [] = pure tt
  distribute_fees (idx ∷ idxs) = do
    fee ← reads (λ p. ok_or (lookup idx p.accumulated_fees) Error.nil_dereference)
    coord ← read_account c idx
    proc_update_account c idx (record coord { balance = coord.balance + fee })
    distribute_fees idxs

  -- `ProcessTxs`; a TxSelector returns no output.
  unfoldable pub process_txs :
      Config
      → List ℕ
      → List L1Tx
      → List L1Tx
      → List PoolL2Tx
      → Exec TxProcessor (Option ProcessTxOutput)
  unfolding process_l1_txs process_l2_txs filter_coord_idxs distribute_fees
  process_txs config coord_idxs l1_user_txs l1_coordinator_txs l2_txs = do
    ensure (leb (length coord_idxs) config.max_fee_tx) Error.too_many_coord_idxs
    ensure (leb (length l1_user_txs + length l1_coordinator_txs + length l2_txs) config.max_tx)
        Error.too_many_txs
    ensure (leb (length l1_user_txs + length l1_coordinator_txs) config.max_l1_tx)
        Error.too_many_l1_txs
    modify start_batch
    users ← process_l1_txs l1_user_txs
    coordinators ← process_l1_txs l1_coordinator_txs
    filtered ← filter_coord_idxs [] coord_idxs
    modify (λ p. record p { accumulated_fees = zeros filtered })
    coord_idxs_map ← reads (λ p. get_token_ids_from_idxs c filtered p.state)
    modify (start_fees coord_idxs_map)
    l2 ← process_l2_txs coord_idxs_map l2_txs
    distribute_fees filtered
    output ← gets (λ p.
        if is_synchronizer p.state.typ
        then some (record {
          exit_infos = exit_infos_l2 l2 (exit_infos_l1 users []);
          created_accounts = created_accounts_of users ++ created_accounts_of coordinators;
          coordinator_idxs_map = coord_idxs_map;
          collected_fees = p.collected_fees;
          updated_accounts = p.updated_accounts;
        })
        else none)
    modify (λ p. record p { state = state_make_checkpoint p.state })
    pure output
