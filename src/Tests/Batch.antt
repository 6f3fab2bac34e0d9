-- ===== src/Tests/Batch.antt =====
-- A batch of L1 transactions, a transfer without the balance, the index of an address, and a
-- checkpoint.
use han_hermez_node.Bytes.{be, of_be}
use han_hermez_node.Common.Ids.{
  idx_bytes, nonce_bytes, nonce_from_bytes, token_id_bytes, token_id_from_bytes,
}
use han_hermez_node.Common.Account.{
  Account, hash_value, account_big_ints, account_bytes, account_layout, account_from_bytes,
  account_of_parts,
}
use han_hermez_node.Common.Tx.{L1Tx, Tx, tx_of_l1}
use han_hermez_node.StateDb.{
  Content, get_account, create_account, update_account, state_set_current_idx,
  set_idx_by_eth_addr_bjj, put_idx_keys, get_idx_by_eth_addr_bjj, get_idx_by_eth_addr,
  concat_eth_addr_token_id, concat_eth_addr_bjj_token_id,
}
use han_hermez_node.StateDb.Tree.{
  get_account_in_tree, create_account_in_tree, update_account_in_tree, put_leaf, write_mt,
}
use han_hermez_node.KvDb.{KvDb, set_current_idx}
use han_hermez_node.TxProcessor.State.{
  note_account, proc_create_account, proc_update_account, advance_idx,
}
use han_hermez_node.TxProcessor.Effective.{
  compute_effective_amounts, effective_create_transfer, effective_receiver, effective_checks,
  effective_sender,
}
use han_hermez_node.TxProcessor.Apply.{
  apply_transfer, apply_deposit, apply_create_account, apply_create_account_deposit_transfer, debit,
  debit_l1, debit_l2, credit, read_receiver,
}
use han_hermez_node.TxProcessor.Exit.{
  create_exit, update_exit, add_exit, leave, leave_tree, apply_exit,
}
use han_hermez_node.TxProcessor.Process.{apply_l1, finish_l1, finish_exit, process_l1_tx}
use han_hermez_node.Tests.Instance.{toy_crypto, toy_laws, toy_poseidon}
use han_hermez_node.StateDb.AddressIndex.{get_idx-set_idx}
use han_hermez_node.Common.Fee.{calc_fee_amount}
use han_hermez_node.Common.Fee.Table.{fee_factors, fee_factor_lsh60}
use han_hermez_node.TxProcessor.Apply.Shortage.{apply_transfer-short}
use han_hermez_node.TxProcessor.Batch.{process_l1_txs}
use han_hermez_node.TxProcessor.Batch.Deposits.{deposits, process_l1_txs-Holds}
use han_hermez_node.TxProcessor.Process.Wealth.{Holds}
use han_hermez_node.Tests.Processor.{
  start, start-Holds, open_account, open_second, two, collecting, coord_idxs, pay,
}
use han_hermez_node.Prelude.{
  ◌<◌, Error, ℕ, ◌+◌, ◌≤◌, ◌≡◌, refl, true, List, [], ◌∷◌, arith, ok, err, is_ok, is_ok_value,
  lookup, insert,
}

abbrev both : List L1Tx
both = open_account ∷ open_second ∷ []

both_done : is_ok (process_l1_txs toy_crypto both start).0 ≡ true
unfolding process_l1_tx apply_l1 finish_l1 finish_exit apply_exit leave leave_tree add_exit
    create_exit update_exit apply_transfer apply_deposit apply_create_account
    apply_create_account_deposit_transfer debit debit_l1 debit_l2 credit read_receiver
    compute_effective_amounts effective_create_transfer effective_sender effective_checks
    effective_receiver proc_create_account proc_update_account note_account advance_idx
    state_set_current_idx set_current_idx create_account update_account get_account
    create_account_in_tree update_account_in_tree get_account_in_tree put_leaf write_mt
    set_idx_by_eth_addr_bjj put_idx_keys get_idx_by_eth_addr_bjj get_idx_by_eth_addr
    concat_eth_addr_token_id concat_eth_addr_bjj_token_id hash_value account_big_ints account_bytes
    account_layout account_from_bytes account_of_parts idx_bytes nonce_bytes nonce_from_bytes
    token_id_bytes token_id_from_bytes be of_be lookup insert toy_poseidon tx_of_l1 process_l1_txs
both_done = refl

process_l1_txs-Holds_example :
    (w' : ℕ) × Holds toy_crypto toy_laws w' (process_l1_txs toy_crypto both start).1
    × (0 ≤ w')
    × (w' ≤ 0 + deposits both)
process_l1_txs-Holds_example =
    process_l1_txs-Holds toy_crypto toy_laws both 0 start
      (is_ok_value (process_l1_txs toy_crypto both start).0 both_done).0 (tt, (tt, tt)) start-Holds
      (is_ok_value (process_l1_txs toy_crypto both start).0 both_done).1

abbrev first_user : Account
first_user = record {
  idx = 256;
  token_id = 1;
  batch_num = 0;
  bjj = 7;
  eth_addr = 11;
  nonce = 0;
  balance = 100;
}

first_user_read : get_account toy_crypto 256 collecting.state ≡ ok first_user
unfolding process_l1_tx apply_l1 finish_l1 finish_exit apply_exit leave leave_tree add_exit
    create_exit update_exit apply_transfer apply_deposit apply_create_account
    apply_create_account_deposit_transfer debit debit_l1 debit_l2 credit read_receiver
    compute_effective_amounts effective_create_transfer effective_sender effective_checks
    effective_receiver proc_create_account proc_update_account note_account advance_idx
    state_set_current_idx set_current_idx create_account update_account get_account
    create_account_in_tree update_account_in_tree get_account_in_tree put_leaf write_mt
    set_idx_by_eth_addr_bjj put_idx_keys get_idx_by_eth_addr_bjj get_idx_by_eth_addr
    concat_eth_addr_token_id concat_eth_addr_bjj_token_id hash_value account_big_ints account_bytes
    account_layout account_from_bytes account_of_parts idx_bytes nonce_bytes nonce_from_bytes
    token_id_bytes token_id_from_bytes be of_be lookup insert toy_poseidon tx_of_l1 process_l1_txs
first_user_read = refl

-- Sixty and a fee of as much.
abbrev overspend : Tx
overspend = record pay { amount = 60 }

overspend_fee : calc_fee_amount 60 192 ≡ ok 60
unfolding calc_fee_amount fee_factor_lsh60 fee_factors
overspend_fee = refl

apply_transfer-short_example :
    (apply_transfer toy_crypto coord_idxs overspend 0 collecting
      ≡ (err Error.not_enough_balance, collecting))
    × (apply_exit toy_crypto coord_idxs overspend 60 collecting
        ≡ (err Error.not_enough_balance, collecting))
apply_transfer-short_example =
    apply_transfer-short toy_crypto coord_idxs overspend collecting first_user 0 60 60
      first_user_read (λ l1. ground arith) (λ _. overspend_fee) (omega arith)

second_set : (set_idx_by_eth_addr_bjj 300 11 7 1 two.state).0 ≡ ok tt
unfolding process_l1_tx apply_l1 finish_l1 finish_exit apply_exit leave leave_tree add_exit
    create_exit update_exit apply_transfer apply_deposit apply_create_account
    apply_create_account_deposit_transfer debit debit_l1 debit_l2 credit read_receiver
    compute_effective_amounts effective_create_transfer effective_sender effective_checks
    effective_receiver proc_create_account proc_update_account note_account advance_idx
    state_set_current_idx set_current_idx create_account update_account get_account
    create_account_in_tree update_account_in_tree get_account_in_tree put_leaf write_mt
    set_idx_by_eth_addr_bjj put_idx_keys get_idx_by_eth_addr_bjj get_idx_by_eth_addr
    concat_eth_addr_token_id concat_eth_addr_bjj_token_id hash_value account_big_ints account_bytes
    account_layout account_from_bytes account_of_parts idx_bytes nonce_bytes nonce_from_bytes
    token_id_bytes token_id_from_bytes be of_be lookup insert toy_poseidon tx_of_l1 process_l1_txs
second_set = refl

-- The user's account 256 is not hidden by a later one with the same key.
get_idx-set_idx_example :
    let after = (set_idx_by_eth_addr_bjj 300 11 7 1 two.state).1 in
    ((x : Error)
      → get_idx_by_eth_addr_bjj 11 7 1 two.state ≡ err x
      → (get_idx_by_eth_addr_bjj 11 7 1 after ≡ ok 300) × (get_idx_by_eth_addr 11 1 after ≡ ok 300))
    × ((old : ℕ)
        → get_idx_by_eth_addr_bjj 11 7 1 two.state ≡ ok old
        → (old ≤ 300 → get_idx_by_eth_addr_bjj 11 7 1 after ≡ ok old)
          × (300 < old
              → (get_idx_by_eth_addr_bjj 11 7 1 after ≡ ok 300)
                × (get_idx_by_eth_addr 11 1 after ≡ ok 300)))
get_idx-set_idx_example = get_idx-set_idx 11 7 1 two.state (λ e. omega (arith, e)) 300 second_set

abbrev kept_db : KvDb Content
kept_db = record start.state.kv { no_gaps_check = true }
