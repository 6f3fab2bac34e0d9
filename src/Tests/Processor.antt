-- ===== src/Tests/Processor.antt =====
-- Runs of the transaction processor over an empty Synchronizer, and the theorems about it at them.
use han_hermez_node.Bytes.{be, of_be}
use han_hermez_node.Common.Ids.{
  idx_bytes, nonce_bytes, nonce_from_bytes, token_id_bytes, token_id_from_bytes,
}
use han_hermez_node.Common.Account.{
  hash_value, account_big_ints, account_bytes, account_layout, account_from_bytes, account_of_parts,
}
use han_hermez_node.Common.Tx.{L1Tx, Tx, TxType, tx_of_l1}
use han_hermez_node.StateDb.{
  synchronizer, empty_content, tree_of, get_account, create_account, update_account,
  state_set_current_idx, set_idx_by_eth_addr_bjj, put_idx_keys, get_idx_by_eth_addr_bjj,
  get_idx_by_eth_addr, concat_eth_addr_token_id, concat_eth_addr_bjj_token_id,
}
use han_hermez_node.StateDb.Tree.{
  TreeDb, get_account_in_tree, create_account_in_tree, update_account_in_tree, put_leaf, write_mt,
}
use han_hermez_node.StateDb.Tree.Invariant.{IsValid, total}
use han_hermez_node.KvDb.{set_current_idx}
use han_hermez_node.TxProcessor.State.{
  TxProcessor, note_account, proc_create_account, proc_update_account, advance_idx,
}
use han_hermez_node.TxProcessor.Effective.{
  compute_effective_amounts, effective_create_transfer, effective_receiver, effective_checks,
  effective_sender,
}
use han_hermez_node.TxProcessor.Apply.{
  add_accumulated, add_collected, collect_fee, apply_transfer, apply_deposit, apply_create_account,
  apply_create_account_deposit_transfer, debit, debit_l1, debit_l2, credit, read_receiver,
}
use han_hermez_node.Common.Fee.{calc_fee_amount}
use han_hermez_node.Common.Fee.Table.{fee_factors, fee_factor_lsh60}
use han_hermez_node.TxProcessor.Apply.Debit.{total_fees}
use han_hermez_node.TxProcessor.Apply.Created.{
  Created, apply_create_account_deposit_transfer-Created,
}
use han_hermez_node.TxProcessor.Apply.Deposit.{Deposited, apply_deposit-Deposited}
use han_hermez_node.TxProcessor.Exit.Conservation.{Exited, apply_exit-Exited}
use han_hermez_node.TxProcessor.Exit.{
  create_exit, update_exit, add_exit, leave, leave_tree, apply_exit,
}
use han_hermez_node.TxProcessor.Process.{apply_l1, finish_l1, finish_exit, process_l1_tx}
use han_hermez_node.TxProcessor.Process.Wealth.{Holds, process_l1_tx-Holds}
use han_hermez_node.Tests.Instance.{toy_crypto, toy_laws, toy_poseidon}
use han_hermez_node.Prelude.{
  ℕ, ◌+◌, ◌≡◌, refl, true, false, none, some, List, [], ◌∷◌, arith, ok, is_ok, is_ok_value, lookup,
  insert, sum_values,
}

abbrev pub empty_tree : TreeDb
empty_tree = record { idx_leaf = []; leaf_bytes = []; mt = some [] }

abbrev pub start : TxProcessor
start = record {
  state = record {
    typ = synchronizer;
    kv = record {
      keep = 10;
      no_gaps_check = false;
      no_last = false;
      db = empty_content synchronizer;
      current_idx = 255;
      current_batch = 0;
      checkpoints = [];
      last = none;
    };
  };
  accumulated_fees = [];
  updated_accounts = [];
  exit_tree = some empty_tree;
  collected_fees = none;
}

-- A user opens an account with a deposit of 100.
abbrev pub open_account : L1Tx
open_account = record {
  to_forge_l1_txs_num = some 1;
  position = 0;
  user_origin = true;
  from_idx = 0;
  effective_from_idx = 0;
  from_eth_addr = 11;
  from_bjj = 7;
  to_idx = 0;
  token_id = 1;
  amount = 0;
  effective_amount = 0;
  deposit_amount = 100;
  effective_deposit_amount = 0;
  eth_block_num = 5;
  type = some TxType.create_account_deposit;
  batch_num = none;
}

pub start-Holds : Holds toy_crypto toy_laws 0 start
unfolding total sum_values
start-Holds = record {
  valid = record { resolve = tt };
  exits = empty_tree;
  exit_tree = refl;
  exit_valid = record { resolve = tt };
  wealth = refl;
}

open_account_done : is_ok (process_l1_tx toy_crypto open_account start).0 ≡ true
unfolding process_l1_tx apply_l1 finish_l1 finish_exit apply_exit leave leave_tree add_exit
    create_exit update_exit apply_transfer apply_deposit apply_create_account
    apply_create_account_deposit_transfer debit debit_l1 debit_l2 credit read_receiver
    compute_effective_amounts effective_create_transfer effective_sender effective_checks
    effective_receiver proc_create_account proc_update_account note_account advance_idx
    state_set_current_idx set_current_idx create_account update_account get_account
    create_account_in_tree update_account_in_tree get_account_in_tree put_leaf write_mt
    set_idx_by_eth_addr_bjj put_idx_keys get_idx_by_eth_addr_bjj get_idx_by_eth_addr
    concat_eth_addr_token_id concat_eth_addr_bjj_token_id hash_value account_big_ints account_bytes
    account_layout account_from_bytes account_of_parts idx_bytes nonce_bytes nonce_from_bytes
    token_id_bytes token_id_from_bytes be of_be lookup insert toy_poseidon tx_of_l1
open_account_done = refl

-- An L1 transaction of a Synchronizer at a user's first account.
process_l1_tx-Holds_example :
    Holds toy_crypto toy_laws
      (0 + (compute_effective_amounts toy_crypto open_account start.state).effective_deposit_amount)
      (process_l1_tx toy_crypto open_account start).1
process_l1_tx-Holds_example =
    process_l1_tx-Holds toy_crypto toy_laws open_account 0 start tt start-Holds
      (is_ok_value (process_l1_tx toy_crypto open_account start).0 open_account_done).1

-- An account of a second user.
abbrev pub open_second : L1Tx
open_second = record open_account { from_eth_addr = 12; from_bjj = 8; deposit_amount = 60 }

abbrev one : TxProcessor
one = (process_l1_tx toy_crypto open_account start).1

abbrev pub two : TxProcessor
two = (process_l1_tx toy_crypto open_second one).1

open_second_done : is_ok (process_l1_tx toy_crypto open_second one).0 ≡ true
unfolding process_l1_tx apply_l1 finish_l1 finish_exit apply_exit leave leave_tree add_exit
    create_exit update_exit apply_transfer apply_deposit apply_create_account
    apply_create_account_deposit_transfer debit debit_l1 debit_l2 credit read_receiver
    compute_effective_amounts effective_create_transfer effective_sender effective_checks
    effective_receiver proc_create_account proc_update_account note_account advance_idx
    state_set_current_idx set_current_idx create_account update_account get_account
    create_account_in_tree update_account_in_tree get_account_in_tree put_leaf write_mt
    set_idx_by_eth_addr_bjj put_idx_keys get_idx_by_eth_addr_bjj get_idx_by_eth_addr
    concat_eth_addr_token_id concat_eth_addr_bjj_token_id hash_value account_big_ints account_bytes
    account_layout account_from_bytes account_of_parts idx_bytes nonce_bytes nonce_from_bytes
    token_id_bytes token_id_from_bytes be of_be lookup insert toy_poseidon tx_of_l1 collect_fee
    add_accumulated add_collected calc_fee_amount fee_factor_lsh60 fee_factors
open_second_done = refl

one-IsValid : IsValid toy_crypto (tree_of one.state)
one-IsValid = process_l1_tx-Holds_example.valid

two-IsValid : IsValid toy_crypto (tree_of two.state)
two-IsValid =
    (process_l1_tx-Holds toy_crypto toy_laws open_second _ one tt process_l1_tx-Holds_example
      (is_ok_value (process_l1_tx toy_crypto open_second one).0 open_second_done).1).valid

-- Both accounts, and a coordinator that collects the fees of the first token in the second account.
abbrev pub collecting : TxProcessor
collecting = record two { collected_fees = some ((1, 0) ∷ []) }

abbrev pub coord_idxs : List (ℕ × ℕ)
coord_idxs = (1, 257) ∷ []

-- An L2 transfer of 30 whose fee is as large.
abbrev pub pay : Tx
pay = record {
  is_l1 = false;
  type = some TxType.transfer;
  from_idx = 256;
  to_idx = 257;
  amount = 30;
  token_id = 1;
  fee = 192;
}

-- The fee that the transfer leaves to the coordinator.
pay_fee : total_fees (apply_transfer toy_crypto coord_idxs pay 0 collecting).1 ≡ 30
unfolding process_l1_tx apply_l1 finish_l1 finish_exit apply_exit leave leave_tree add_exit
    create_exit update_exit apply_transfer apply_deposit apply_create_account
    apply_create_account_deposit_transfer debit debit_l1 debit_l2 credit read_receiver
    compute_effective_amounts effective_create_transfer effective_sender effective_checks
    effective_receiver proc_create_account proc_update_account note_account advance_idx
    state_set_current_idx set_current_idx create_account update_account get_account
    create_account_in_tree update_account_in_tree get_account_in_tree put_leaf write_mt
    set_idx_by_eth_addr_bjj put_idx_keys get_idx_by_eth_addr_bjj get_idx_by_eth_addr
    concat_eth_addr_token_id concat_eth_addr_bjj_token_id hash_value account_big_ints account_bytes
    account_layout account_from_bytes account_of_parts idx_bytes nonce_bytes nonce_from_bytes
    token_id_bytes token_id_from_bytes be of_be lookup insert toy_poseidon tx_of_l1 collect_fee
    add_accumulated add_collected calc_fee_amount fee_factor_lsh60 fee_factors total_fees sum_values
pay_fee = refl

-- An exit of 20 by the same user.
abbrev quit : Tx
quit = record {
  is_l1 = true;
  type = some TxType.force_exit;
  from_idx = 256;
  to_idx = 1;
  amount = 20;
  token_id = 1;
  fee = 0;
}

quit_done : is_ok (apply_exit toy_crypto [] quit 20 two).0 ≡ true
unfolding process_l1_tx apply_l1 finish_l1 finish_exit apply_exit leave leave_tree add_exit
    create_exit update_exit apply_transfer apply_deposit apply_create_account
    apply_create_account_deposit_transfer debit debit_l1 debit_l2 credit read_receiver
    compute_effective_amounts effective_create_transfer effective_sender effective_checks
    effective_receiver proc_create_account proc_update_account note_account advance_idx
    state_set_current_idx set_current_idx create_account update_account get_account
    create_account_in_tree update_account_in_tree get_account_in_tree put_leaf write_mt
    set_idx_by_eth_addr_bjj put_idx_keys get_idx_by_eth_addr_bjj get_idx_by_eth_addr
    concat_eth_addr_token_id concat_eth_addr_bjj_token_id hash_value account_big_ints account_bytes
    account_layout account_from_bytes account_of_parts idx_bytes nonce_bytes nonce_from_bytes
    token_id_bytes token_id_from_bytes be of_be lookup insert toy_poseidon tx_of_l1 collect_fee
    add_accumulated add_collected calc_fee_amount fee_factor_lsh60 fee_factors
quit_done = refl

two_exit : two.exit_tree ≡ some empty_tree
unfolding process_l1_tx apply_l1 finish_l1 finish_exit apply_exit leave leave_tree add_exit
    create_exit update_exit apply_transfer apply_deposit apply_create_account
    apply_create_account_deposit_transfer debit debit_l1 debit_l2 credit read_receiver
    compute_effective_amounts effective_create_transfer effective_sender effective_checks
    effective_receiver proc_create_account proc_update_account note_account advance_idx
    state_set_current_idx set_current_idx create_account update_account get_account
    create_account_in_tree update_account_in_tree get_account_in_tree put_leaf write_mt
    set_idx_by_eth_addr_bjj put_idx_keys get_idx_by_eth_addr_bjj get_idx_by_eth_addr
    concat_eth_addr_token_id concat_eth_addr_bjj_token_id hash_value account_big_ints account_bytes
    account_layout account_from_bytes account_of_parts idx_bytes nonce_bytes nonce_from_bytes
    token_id_bytes token_id_from_bytes be of_be lookup insert toy_poseidon tx_of_l1 collect_fee
    add_accumulated add_collected calc_fee_amount fee_factor_lsh60 fee_factors
two_exit = refl

apply_exit-Exited_example :
    Exited toy_crypto toy_laws [] quit empty_tree two (apply_exit toy_crypto [] quit 20 two).1
apply_exit-Exited_example =
    apply_exit-Exited toy_crypto toy_laws [] quit 20 empty_tree two
      (is_ok_value (apply_exit toy_crypto [] quit 20 two).0 quit_done).0 two_exit two-IsValid
      (record { resolve = tt }) (λ zero_amount. omega arith)
      (is_ok_value (apply_exit toy_crypto [] quit 20 two).0 quit_done).1

-- A deposit of 50 into the first account, of which 20 go to the second.
abbrev pub give : L1Tx
give = record open_account {
  from_idx = 256;
  to_idx = 257;
  amount = 20;
  effective_amount = 20;
  deposit_amount = 50;
  effective_deposit_amount = 50;
  type = some TxType.deposit_transfer;
}

give_done : (apply_deposit toy_crypto give true two).0 ≡ ok tt
unfolding process_l1_tx apply_l1 finish_l1 finish_exit apply_exit leave leave_tree add_exit
    create_exit update_exit apply_transfer apply_deposit apply_create_account
    apply_create_account_deposit_transfer debit debit_l1 debit_l2 credit read_receiver
    compute_effective_amounts effective_create_transfer effective_sender effective_checks
    effective_receiver proc_create_account proc_update_account note_account advance_idx
    state_set_current_idx set_current_idx create_account update_account get_account
    create_account_in_tree update_account_in_tree get_account_in_tree put_leaf write_mt
    set_idx_by_eth_addr_bjj put_idx_keys get_idx_by_eth_addr_bjj get_idx_by_eth_addr
    concat_eth_addr_token_id concat_eth_addr_bjj_token_id hash_value account_big_ints account_bytes
    account_layout account_from_bytes account_of_parts idx_bytes nonce_bytes nonce_from_bytes
    token_id_bytes token_id_from_bytes be of_be lookup insert toy_poseidon tx_of_l1 collect_fee
    add_accumulated add_collected calc_fee_amount fee_factor_lsh60 fee_factors
give_done = refl

apply_deposit-Deposited_example :
    Deposited toy_crypto toy_laws give true two (apply_deposit toy_crypto give true two).1
apply_deposit-Deposited_example =
    apply_deposit-Deposited toy_crypto toy_laws give true two two-IsValid give_done

-- A third account, opened with 50, of which 20 go to the first.
abbrev pub join : L1Tx
join = record give {
  from_idx = 0;
  to_idx = 256;
  from_eth_addr = 13;
  type = some TxType.create_account_deposit_transfer;
}

join_done : (apply_create_account_deposit_transfer toy_crypto join two).0 ≡ ok tt
unfolding process_l1_tx apply_l1 finish_l1 finish_exit apply_exit leave leave_tree add_exit
    create_exit update_exit apply_transfer apply_deposit apply_create_account
    apply_create_account_deposit_transfer debit debit_l1 debit_l2 credit read_receiver
    compute_effective_amounts effective_create_transfer effective_sender effective_checks
    effective_receiver proc_create_account proc_update_account note_account advance_idx
    state_set_current_idx set_current_idx create_account update_account get_account
    create_account_in_tree update_account_in_tree get_account_in_tree put_leaf write_mt
    set_idx_by_eth_addr_bjj put_idx_keys get_idx_by_eth_addr_bjj get_idx_by_eth_addr
    concat_eth_addr_token_id concat_eth_addr_bjj_token_id hash_value account_big_ints account_bytes
    account_layout account_from_bytes account_of_parts idx_bytes nonce_bytes nonce_from_bytes
    token_id_bytes token_id_from_bytes be of_be lookup insert toy_poseidon tx_of_l1 collect_fee
    add_accumulated add_collected calc_fee_amount fee_factor_lsh60 fee_factors
join_done = refl

apply_create_account_deposit_transfer-Created_example :
    Created toy_crypto toy_laws 50 two (apply_create_account_deposit_transfer toy_crypto join two).1
apply_create_account_deposit_transfer-Created_example =
    apply_create_account_deposit_transfer-Created toy_crypto toy_laws join two two-IsValid join_done

create_done : (apply_create_account toy_crypto join two).0 ≡ ok tt
unfolding process_l1_tx apply_l1 finish_l1 finish_exit apply_exit leave leave_tree add_exit
    create_exit update_exit apply_transfer apply_deposit apply_create_account
    apply_create_account_deposit_transfer debit debit_l1 debit_l2 credit read_receiver
    compute_effective_amounts effective_create_transfer effective_sender effective_checks
    effective_receiver proc_create_account proc_update_account note_account advance_idx
    state_set_current_idx set_current_idx create_account update_account get_account
    create_account_in_tree update_account_in_tree get_account_in_tree put_leaf write_mt
    set_idx_by_eth_addr_bjj put_idx_keys get_idx_by_eth_addr_bjj get_idx_by_eth_addr
    concat_eth_addr_token_id concat_eth_addr_bjj_token_id hash_value account_big_ints account_bytes
    account_layout account_from_bytes account_of_parts idx_bytes nonce_bytes nonce_from_bytes
    token_id_bytes token_id_from_bytes be of_be lookup insert toy_poseidon tx_of_l1 collect_fee
    add_accumulated add_collected calc_fee_amount fee_factor_lsh60 fee_factors
create_done = refl
