-- ===== src/Tests/Effective.antt =====
-- The effective amounts of L1 transactions over two accounts.
use han_hermez_node.Bytes.{be, of_be}
use han_hermez_node.Common.Ids.{
  idx_bytes, nonce_bytes, nonce_from_bytes, token_id_bytes, token_id_from_bytes,
}
use han_hermez_node.Common.Account.{
  hash_value, account_big_ints, account_bytes, account_layout, account_from_bytes, account_of_parts,
}
use han_hermez_node.Common.Tx.{L1Tx, tx_of_l1}
use han_hermez_node.StateDb.{
  get_account, create_account, update_account, state_set_current_idx, set_idx_by_eth_addr_bjj,
  put_idx_keys, get_idx_by_eth_addr_bjj, get_idx_by_eth_addr, concat_eth_addr_token_id,
  concat_eth_addr_bjj_token_id,
}
use han_hermez_node.StateDb.Tree.{
  get_account_in_tree, create_account_in_tree, update_account_in_tree, put_leaf, write_mt,
}
use han_hermez_node.KvDb.{set_current_idx}
use han_hermez_node.TxProcessor.State.{
  note_account, proc_create_account, proc_update_account, advance_idx,
}
use han_hermez_node.TxProcessor.Effective.{
  compute_effective_amounts, effective_create_transfer, effective_receiver, effective_checks,
  effective_sender,
}
use han_hermez_node.TxProcessor.Apply.{
  apply_transfer, apply_deposit, apply_create_account, apply_create_account_deposit_transfer, debit,
  debit_l1, debit_l2, credit, read_receiver,
}
use han_hermez_node.TxProcessor.Exit.{
  create_exit, update_exit, add_exit, leave, leave_tree, apply_exit,
}
use han_hermez_node.TxProcessor.Process.{apply_l1, finish_l1, finish_exit, process_l1_tx}
use han_hermez_node.Tests.Instance.{toy_crypto, toy_poseidon}
use han_hermez_node.TxProcessor.Effective.Safety.{
  SenderAgrees, ReceiverAgrees, compute_effective_amounts-sender, compute_effective_amounts-covered,
}
use han_hermez_node.Tests.Processor.{two, give, join}
use han_hermez_node.Prelude.{
  ◌+◌, ◌≤◌, ◌≡◌, refl, ◌⊎◌, true, arith, is_ok, is_ok_value, lookup, insert,
}

give_amount : (compute_effective_amounts toy_crypto give two.state).effective_amount ≡ 20
unfolding process_l1_tx apply_l1 finish_l1 finish_exit apply_exit leave leave_tree add_exit
    create_exit update_exit apply_transfer apply_deposit apply_create_account
    apply_create_account_deposit_transfer debit debit_l1 debit_l2 credit read_receiver
    compute_effective_amounts effective_create_transfer effective_sender effective_checks
    effective_receiver proc_create_account proc_update_account note_account advance_idx
    state_set_current_idx set_current_idx create_account update_account get_account
    create_account_in_tree update_account_in_tree get_account_in_tree put_leaf write_mt
    set_idx_by_eth_addr_bjj put_idx_keys get_idx_by_eth_addr_bjj get_idx_by_eth_addr
    concat_eth_addr_token_id concat_eth_addr_bjj_token_id hash_value account_big_ints account_bytes
    account_layout account_from_bytes account_of_parts idx_bytes nonce_bytes nonce_from_bytes
    token_id_bytes token_id_from_bytes be of_be lookup insert toy_poseidon tx_of_l1
give_amount = refl

join_amount : (compute_effective_amounts toy_crypto join two.state).effective_amount ≡ 20
unfolding process_l1_tx apply_l1 finish_l1 finish_exit apply_exit leave leave_tree add_exit
    create_exit update_exit apply_transfer apply_deposit apply_create_account
    apply_create_account_deposit_transfer debit debit_l1 debit_l2 credit read_receiver
    compute_effective_amounts effective_create_transfer effective_sender effective_checks
    effective_receiver proc_create_account proc_update_account note_account advance_idx
    state_set_current_idx set_current_idx create_account update_account get_account
    create_account_in_tree update_account_in_tree get_account_in_tree put_leaf write_mt
    set_idx_by_eth_addr_bjj put_idx_keys get_idx_by_eth_addr_bjj get_idx_by_eth_addr
    concat_eth_addr_token_id concat_eth_addr_bjj_token_id hash_value account_big_ints account_bytes
    account_layout account_from_bytes account_of_parts idx_bytes nonce_bytes nonce_from_bytes
    token_id_bytes token_id_from_bytes be of_be lookup insert toy_poseidon tx_of_l1
join_amount = refl

compute_effective_amounts-sender_example :
    SenderAgrees toy_crypto give two.state
    × (((give.to_idx ≡ 0) ⊎ (give.to_idx ≡ 1)) ⊎ ReceiverAgrees toy_crypto give two.state)
compute_effective_amounts-sender_example =
    compute_effective_amounts-sender toy_crypto give two.state (λ e. omega (arith, e)) refl
      (omega (arith, give_amount))

-- More than the first account has: nothing moves.
abbrev too_much : L1Tx
too_much = record give { amount = 1000 }

-- The first account.
first_account : is_ok (get_account toy_crypto 256 two.state) ≡ true
unfolding process_l1_tx apply_l1 finish_l1 finish_exit apply_exit leave leave_tree add_exit
    create_exit update_exit apply_transfer apply_deposit apply_create_account
    apply_create_account_deposit_transfer debit debit_l1 debit_l2 credit read_receiver
    compute_effective_amounts effective_create_transfer effective_sender effective_checks
    effective_receiver proc_create_account proc_update_account note_account advance_idx
    state_set_current_idx set_current_idx create_account update_account get_account
    create_account_in_tree update_account_in_tree get_account_in_tree put_leaf write_mt
    set_idx_by_eth_addr_bjj put_idx_keys get_idx_by_eth_addr_bjj get_idx_by_eth_addr
    concat_eth_addr_token_id concat_eth_addr_bjj_token_id hash_value account_big_ints account_bytes
    account_layout account_from_bytes account_of_parts idx_bytes nonce_bytes nonce_from_bytes
    token_id_bytes token_id_from_bytes be of_be lookup insert toy_poseidon tx_of_l1
first_account = refl

compute_effective_amounts-covered_example :
    (compute_effective_amounts toy_crypto too_much two.state).effective_amount
    ≤ (is_ok_value (get_account toy_crypto 256 two.state) first_account).0.balance
      + (compute_effective_amounts toy_crypto too_much two.state).effective_deposit_amount
compute_effective_amounts-covered_example =
    compute_effective_amounts-covered toy_crypto too_much two.state
      (is_ok_value (get_account toy_crypto 256 two.state) first_account).0 (λ e. omega (arith, e))
      refl (is_ok_value (get_account toy_crypto 256 two.state) first_account).1

-- An address that is not the sender's takes the amount away and leaves the deposit.
foreign_address :
    (compute_effective_amounts toy_crypto
      (record give { from_eth_addr = 99 })
      two.state).effective_amount
    ≡ 0
unfolding process_l1_tx apply_l1 finish_l1 finish_exit apply_exit leave leave_tree add_exit
    create_exit update_exit apply_transfer apply_deposit apply_create_account
    apply_create_account_deposit_transfer debit debit_l1 debit_l2 credit read_receiver
    compute_effective_amounts effective_create_transfer effective_sender effective_checks
    effective_receiver proc_create_account proc_update_account note_account advance_idx
    state_set_current_idx set_current_idx create_account update_account get_account
    create_account_in_tree update_account_in_tree get_account_in_tree put_leaf write_mt
    set_idx_by_eth_addr_bjj put_idx_keys get_idx_by_eth_addr_bjj get_idx_by_eth_addr
    concat_eth_addr_token_id concat_eth_addr_bjj_token_id hash_value account_big_ints account_bytes
    account_layout account_from_bytes account_of_parts idx_bytes nonce_bytes nonce_from_bytes
    token_id_bytes token_id_from_bytes be of_be lookup insert toy_poseidon tx_of_l1
foreign_address = refl
