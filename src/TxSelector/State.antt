-- ===== src/TxSelector/State.antt =====
-- The data of the transaction selector (txselector/txselector.go and errors.go), and what it calls:
-- the authorizations in the L2 database and Go's floating point numbers are parameters.
use han_hermez_node.Common.Tx.{L1Tx, PoolL2Tx}
use han_hermez_node.TxProcessor.State.{TxProcessor, Config}
use han_hermez_node.Prelude.{ℕ, ◌+◌, Bool, ◌&&◌, Option, List, ltb}

-- `CoordAccount`; a signature is the number of its bytes.
pub record CoordAccount : Type 0 where
  pub addr : ℕ
  pub bjj : ℕ
  pub account_creation_auth : ℕ

-- `AccountCreationAuth`
pub record AccountCreationAuth : Type 0 where
  pub eth_addr : ℕ
  pub bjj : ℕ
  pub signature : ℕ

-- `failedAtomicGroup`, with the code of its reason.
pub record FailedAtomicGroup : Type 0 where
  pub id : ℕ
  pub failed_tx_id : ℕ
  pub reason : ℕ

-- `EmptyAtomicGroupID` and `EmptyEthSignature`
abbrev pub empty_atomic_group_id : ℕ
empty_atomic_group_id = 0

abbrev pub empty_eth_signature : ℕ
empty_eth_signature = 0

-- The codes of errors.go.
abbrev pub err_exit_amount : ℕ
err_exit_amount = 1

abbrev pub err_unsupported_max_num_batch : ℕ
err_unsupported_max_num_batch = 2

abbrev pub err_sender_not_enough_balance : ℕ
err_sender_not_enough_balance = 11

abbrev pub err_no_current_nonce : ℕ
err_no_current_nonce = 12

abbrev pub err_not_enough_space_l1_coordinator : ℕ
err_not_enough_space_l1_coordinator = 13

abbrev pub err_tx_discarded_in_process_tx_to_eth_addr_bjj : ℕ
err_tx_discarded_in_process_tx_to_eth_addr_bjj = 14

abbrev pub err_to_idx_not_found : ℕ
err_to_idx_not_found = 15

abbrev pub err_tx_discarded_in_process_l2_tx : ℕ
err_tx_discarded_in_process_l2_tx = 16

abbrev pub err_no_available_slots : ℕ
err_no_available_slots = 17

abbrev pub err_invalid_atomic_group : ℕ
err_invalid_atomic_group = 18

-- What the selector is built from: the coordinator's account, the query of the L2 database for an
-- authorization (none where it returns an error), and the configuration of the batch.
pub record Setup : Type 0 where
  pub coord_account : CoordAccount
  pub get_account_creation_auth : ℕ → Option AccountCreationAuth
  pub config : Config

-- Go's `float64` on the numbers of their bits; `sort.Slice`, whose order of equal elements is not
-- given; and the orders in which the loops of `filterInvalidAtomicGroups` and of `sortL2Txs` range
-- over their maps of groups, which are not given either.
pub record Go : Type 0 where
  pub float_gt : ℕ → ℕ → Bool
  pub float_ne : ℕ → ℕ → Bool
  pub float_add : ℕ → ℕ → ℕ
  pub float_div : ℕ → ℕ → ℕ
  pub sort_slice : (PoolL2Tx → PoolL2Tx → Bool) → List PoolL2Tx → List PoolL2Tx
  pub range_filter : List (ℕ × List PoolL2Tx) → List (ℕ × List PoolL2Tx)
  pub range_sort : List (ℕ × List PoolL2Tx) → List (ℕ × List PoolL2Tx)

-- The variables of `processL2Txs`: the processor, the counters and the arrays of results.
pub record Selection : Type 0 where
  pub tp : TxProcessor
  pub n_l1 : ℕ
  pub n_l2 : ℕ
  pub position_l1 : ℕ
  pub acc_auths : List ℕ
  pub l1_coordinator_txs : List L1Tx
  pub selected : List PoolL2Tx
  pub non_selected : List PoolL2Tx
  pub unforjable : List PoolL2Tx

-- `canAddL2TxThatNeedsNewCoordL1Tx` and `canAddL2Tx`
unfoldable pub can_add_l2_tx_that_needs_new_coord_l1_tx : ℕ → ℕ → Config → Bool
can_add_l2_tx_that_needs_new_coord_l1_tx n_l1 n_l2 config =
    ltb n_l1 config.max_l1_tx && ltb (n_l1 + n_l2 + 1) config.max_tx

unfoldable pub can_add_l2_tx : ℕ → ℕ → Config → Bool
can_add_l2_tx n_l1 n_l2 config = ltb (n_l1 + n_l2) config.max_tx
