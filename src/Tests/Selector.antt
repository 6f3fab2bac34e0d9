-- ===== src/Tests/Selector.antt =====
-- Selections of a batch, and the theorems about the transaction selector at them.
use han_hermez_node.Bytes.{be, of_be}
use han_hermez_node.Common.Ids.{
  idx_bytes, nonce_bytes, nonce_from_bytes, token_id_bytes, token_id_from_bytes,
}
use han_hermez_node.Common.Account.{
  hash_value, account_big_ints, account_bytes, account_layout, account_from_bytes, account_of_parts,
}
use han_hermez_node.Common.Tx.{L1Tx, PoolL2Tx, TxType, tx_of_l1, tx_of_pool_l2}
use han_hermez_node.StateDb.{
  StateDb, tx_selector, empty_content, get_account, create_account, update_account,
  state_set_current_idx, set_idx_by_eth_addr_bjj, put_idx_keys, get_idx_by_eth_addr_bjj,
  get_idx_by_eth_addr, concat_eth_addr_token_id, concat_eth_addr_bjj_token_id, state_reset,
  state_make_checkpoint,
}
use han_hermez_node.StateDb.Tree.{
  get_account_in_tree, create_account_in_tree, update_account_in_tree, put_leaf, write_mt,
}
use han_hermez_node.KvDb.{
  set_current_idx, make_checkpoint, put_checkpoint, reset, list_checkpoints, drop_above,
  find_checkpoint, open_content, open_fresh, no_gaps, get_current_batch, get_current_idx,
}
use han_hermez_node.TxProcessor.State.{
  TxProcessor, note_account, proc_create_account, proc_update_account, advance_idx,
}
use han_hermez_node.TxProcessor.Effective.{
  compute_effective_amounts, effective_create_transfer, effective_receiver, effective_checks,
  effective_sender,
}
use han_hermez_node.TxProcessor.Apply.{
  apply_transfer, apply_deposit, apply_create_account, apply_create_account_deposit_transfer, debit,
  debit_l1, debit_l2, credit, read_receiver, collect_fee, add_accumulated, add_collected,
}
use han_hermez_node.TxProcessor.Exit.{
  create_exit, update_exit, add_exit, leave, leave_tree, apply_exit,
}
use han_hermez_node.TxProcessor.Process.{
  apply_l1, finish_l1, finish_exit, process_l1_tx, process_l2_tx, find_to_idx, fill_from_sender,
  apply_l2, check_enough_balance,
}
use han_hermez_node.Common.Fee.{calc_fee_amount}
use han_hermez_node.Common.Fee.Table.{fee_factors, fee_factor_lsh60}
use han_hermez_node.Tests.Instance.{toy_crypto, toy_poseidon}
use han_hermez_node.Tests.Processor.{open_account, open_second}
use han_hermez_node.TxSelector.State.{
  Setup, Go, Selection, FailedAtomicGroup, can_add_l2_tx_that_needs_new_coord_l1_tx, can_add_l2_tx,
}
use han_hermez_node.TxSelector.Pick.{
  Flow, next, group_failed, resume, ◌>>=◌, ◌>>◌, pure, lift, gets, modify, process, end_iteration,
  iteration, discard, require,
}
use han_hermez_node.TxSelector.Receiver.{
  create_account_l1_tx, get_coord_idx, coord_account_for_token_id,
  check_pending_to_create_future_txs, receiver_auth, with_space, receiver_by_eth_addr,
  receiver_by_bjj, process_tx_to_eth_addr_bjj,
}
use han_hermez_node.TxSelector.Step.{
  add_l1_coordinator_tx, check_sender, add_coord_account, ensure_coord_account, add_receiver,
  create_receiver, ensure_receiver, settle, noted, finish_tx, take_tx, select_tx, no_slots,
  select_txs, begin, process_l2_txs,
}
use han_hermez_node.TxSelector.Groups.{
  find_failed, set_info_for_failed_atomic_tx, filter_failed_atomic_groups, add_to_group, collect,
  concat, request_offset_2_relative_position, same_amount, matches_request, nth, requested_tx,
  valid_from, is_atomic_group_valid, mark_invalid, split_groups, filter_invalid_atomic_groups,
  sum_fees, calculate_atomic_groups_average_fee,
}
use han_hermez_node.TxSelector.Sort.{
  insert_sorted, slice_stable, non_atomic_less, merge, sort_l2_txs,
}
use han_hermez_node.TxSelector.Selection.{
  Batch, selection_loop, process_l1_user_txs, coord_idxs_map, add_fee, distribute_fees,
  finish_batch, selectable, choose, end_selection, no_selection, start_selection,
  get_l1_l2_tx_selection, new_tx_processor,
}
use han_hermez_node.TxSelector.Groups.Partition.{Permutes}
use han_hermez_node.TxSelector.Sort.Partition.{slice_stable-Permᴰ}
use han_hermez_node.TxSelector.Step.Capacity.{Fits, process_l2_txs-Fits}
use han_hermez_node.TxSelector.Step.Partition.{
  ids, tally, process_l2_txs-tally, process_l2_txs-BlamesOne,
}
use han_hermez_node.TxSelector.Step.Loop.{BlamesOne}
use han_hermez_node.TxSelector.Groups.Together.{members, heads, together}
use han_hermez_node.TxSelector.Sort.Together.{sort_l2_txs-together}
use han_hermez_node.TxSelector.Step.Whole.{process_l2_txs-Whole}
use han_hermez_node.TxSelector.Step.Eligible.{Eligible, select_tx-Eligible}
use han_hermez_node.TxSelector.Selection.Finish.{Returns}
use han_hermez_node.TxSelector.Selection.Restart.{get_l1_l2_tx_selection-Returns}
use mathlib.Core.List.Permᴰ
use han_hermez_node.Prelude.{
  ℕ, ◌+◌, ◌/◌, ◌≡◌, refl, ap, ◌⊎◌, true, not, Option, none, some, List, [], ◌∷◌, arith, ltb, ◌==◌,
  length, Result, ok, lookup, insert, count_if,
}

-- A fresh database of a selector.
abbrev fresh : StateDb
fresh = record {
  typ = tx_selector;
  kv = record {
    keep = 10;
    no_gaps_check = true;
    no_last = true;
    db = empty_content tx_selector;
    current_idx = 255;
    current_batch = 0;
    checkpoints = [];
    last = none;
  };
}

abbrev setup : Setup
setup = record {
  coord_account = record { addr = 13; bjj = 9; account_creation_auth = 77 };
  get_account_creation_auth = λ _. none;
  config = record { max_fee_tx = 4; max_tx = 4; max_l1_tx = 3 };
}

-- Stable sorts, maps in the order of their first writes, and integers for the floats.
abbrev toy_go : Go
toy_go = record {
  float_gt = λ a b. ltb b a;
  float_ne = λ a b. not (a == b);
  float_add = λ a b. a + b;
  float_div = λ a b. a / b;
  sort_slice = λ less l. slice_stable less l;
  range_filter = λ m. m;
  range_sort = λ m. m;
}

toy_go-Permutes : Permutes toy_go
toy_go-Permutes = record {
  sorts = λ less l. slice_stable-Permᴰ less l;
  ranges_filter = λ m. Permᴰ.refl m;
  ranges_sort = λ m. Permᴰ.refl m;
}

-- The first user sends 10 to the second.
abbrev send : PoolL2Tx
send = record {
  tx_id = 1;
  from_idx = 256;
  to_idx = 257;
  aux_to_idx = 0;
  to_eth_addr = 0;
  to_bjj = 0;
  token_id = 1;
  amount = 10;
  fee = 0;
  nonce = 0;
  max_num_batch = 0;
  error_code = 0;
  rq_from_idx = 0;
  rq_to_idx = 0;
  rq_to_eth_addr = 0;
  rq_to_bjj = 0;
  rq_token_id = 0;
  rq_amount = none;
  rq_fee = 0;
  rq_nonce = 0;
  absolute_fee = 5;
  rq_offset = 0;
  atomic_group_id = 0;
  type = some TxType.transfer;
}

-- A second one, for which there is no slot.
abbrev send_more : PoolL2Tx
send_more = record send { tx_id = 2; nonce = 1; absolute_fee = 4 }

-- An atomic group whose transaction asks for itself, with a nonce that is not the sender's.
abbrev atomic : PoolL2Tx
atomic = record send { tx_id = 3; nonce = 7; atomic_group_id = 5; absolute_fee = 9 }

abbrev users : List L1Tx
users = open_account ∷ open_second ∷ []

abbrev after_users : TxProcessor
after_users = (process_l1_user_txs toy_crypto setup [] users (new_tx_processor fresh)).1

abbrev iterated : Selection
iterated = (process_l2_txs toy_crypto setup [] after_users 2 0 (send ∷ send_more ∷ [])).1

-- The slots are all taken after the coordinator's account and the first transaction.
iterated_runs :
    ((process_l2_txs toy_crypto setup [] after_users 2 0 (send ∷ send_more ∷ [])).0 ≡ next tt)
    × (length iterated.selected ≡ 1)
unfolding process_l1_tx apply_l1 finish_l1 finish_exit apply_exit leave leave_tree add_exit
    create_exit update_exit apply_transfer apply_deposit apply_create_account
    apply_create_account_deposit_transfer debit debit_l1 debit_l2 credit read_receiver
    compute_effective_amounts effective_create_transfer effective_sender effective_checks
    effective_receiver proc_create_account proc_update_account note_account advance_idx
    state_set_current_idx set_current_idx create_account update_account get_account
    create_account_in_tree update_account_in_tree get_account_in_tree put_leaf write_mt
    set_idx_by_eth_addr_bjj put_idx_keys get_idx_by_eth_addr_bjj get_idx_by_eth_addr
    concat_eth_addr_token_id concat_eth_addr_bjj_token_id hash_value account_big_ints account_bytes
    account_layout account_from_bytes account_of_parts idx_bytes nonce_bytes nonce_from_bytes
    token_id_bytes token_id_from_bytes be of_be lookup insert toy_poseidon tx_of_l1 process_l2_tx
    find_to_idx fill_from_sender apply_l2 tx_of_pool_l2 collect_fee add_accumulated add_collected
    calc_fee_amount fee_factor_lsh60 fee_factors check_enough_balance
    can_add_l2_tx_that_needs_new_coord_l1_tx can_add_l2_tx resume ◌>>=◌ ◌>>◌ pure lift gets modify
    process end_iteration iteration discard require create_account_l1_tx get_coord_idx
    coord_account_for_token_id check_pending_to_create_future_txs receiver_auth with_space
    receiver_by_eth_addr receiver_by_bjj process_tx_to_eth_addr_bjj add_l1_coordinator_tx
    check_sender add_coord_account ensure_coord_account add_receiver create_receiver ensure_receiver
    settle noted finish_tx take_tx select_tx no_slots select_txs process_l2_txs process_l1_user_txs
iterated_runs = (refl, refl)

process_l2_txs-Fits_example : Fits setup.config 2 0 iterated
process_l2_txs-Fits_example =
    process_l2_txs-Fits toy_crypto setup [] after_users 2 0 (send ∷ send_more ∷ []) iterated
      (omega arith) (omega arith) (ap (λ r. (r, iterated)) iterated_runs.0)

process_l2_txs-tally_example :
    tally (λ id group. id == 1) iterated
    ≡ count_if (ids (λ id group. id == 1)) (send ∷ send_more ∷ [])
process_l2_txs-tally_example =
    process_l2_txs-tally toy_crypto setup [] after_users 2 0 (send ∷ send_more ∷ []) iterated
      (λ id group. id == 1) (ap (λ r. (r, iterated)) iterated_runs.0)

get_l1_l2_tx_selection-Returns_example :
    Returns setup.config 2 (send ∷ send_more ∷ atomic ∷ []) (
      get_l1_l2_tx_selection toy_crypto setup toy_go []
        (send ∷ send_more ∷ atomic ∷ [])
        users
        fresh)
get_l1_l2_tx_selection-Returns_example =
    get_l1_l2_tx_selection-Returns toy_crypto setup toy_go [] (send ∷ send_more ∷ atomic ∷ []) users
      fresh toy_go-Permutes (omega arith) (omega arith)

abbrev before : Selection
before = begin after_users 2 0

send_done : (select_tx toy_crypto setup [] send before).0 ≡ next tt
unfolding process_l1_tx apply_l1 finish_l1 finish_exit apply_exit leave leave_tree add_exit
    create_exit update_exit apply_transfer apply_deposit apply_create_account
    apply_create_account_deposit_transfer debit debit_l1 debit_l2 credit read_receiver
    compute_effective_amounts effective_create_transfer effective_sender effective_checks
    effective_receiver proc_create_account proc_update_account note_account advance_idx
    state_set_current_idx set_current_idx create_account update_account get_account
    create_account_in_tree update_account_in_tree get_account_in_tree put_leaf write_mt
    set_idx_by_eth_addr_bjj put_idx_keys get_idx_by_eth_addr_bjj get_idx_by_eth_addr
    concat_eth_addr_token_id concat_eth_addr_bjj_token_id hash_value account_big_ints account_bytes
    account_layout account_from_bytes account_of_parts idx_bytes nonce_bytes nonce_from_bytes
    token_id_bytes token_id_from_bytes be of_be lookup insert toy_poseidon tx_of_l1 process_l2_tx
    find_to_idx fill_from_sender apply_l2 tx_of_pool_l2 collect_fee add_accumulated add_collected
    calc_fee_amount fee_factor_lsh60 fee_factors check_enough_balance
    can_add_l2_tx_that_needs_new_coord_l1_tx can_add_l2_tx resume ◌>>=◌ ◌>>◌ pure lift gets modify
    process end_iteration iteration discard require create_account_l1_tx get_coord_idx
    coord_account_for_token_id check_pending_to_create_future_txs receiver_auth with_space
    receiver_by_eth_addr receiver_by_bjj process_tx_to_eth_addr_bjj add_l1_coordinator_tx
    check_sender add_coord_account ensure_coord_account add_receiver create_receiver ensure_receiver
    settle noted finish_tx take_tx select_tx no_slots select_txs process_l2_txs process_l1_user_txs
send_done = refl

select_tx-Eligible_example : Eligible toy_crypto send before
select_tx-Eligible_example =
    select_tx-Eligible toy_crypto setup [] send before (select_tx toy_crypto setup [] send before).1
      (ap (λ r. (r, (select_tx toy_crypto setup [] send before).1)) send_done)

abbrev failed : Flow (Unit {0}) × Selection
failed = process_l2_txs toy_crypto setup [] after_users 2 0 (send_more ∷ atomic ∷ [])

abbrev fifth_group : FailedAtomicGroup
fifth_group = record { id = 5; failed_tx_id = 3; reason = 12 }

atomic_fails : failed.0 ≡ group_failed fifth_group
unfolding process_l1_tx apply_l1 finish_l1 finish_exit apply_exit leave leave_tree add_exit
    create_exit update_exit apply_transfer apply_deposit apply_create_account
    apply_create_account_deposit_transfer debit debit_l1 debit_l2 credit read_receiver
    compute_effective_amounts effective_create_transfer effective_sender effective_checks
    effective_receiver proc_create_account proc_update_account note_account advance_idx
    state_set_current_idx set_current_idx create_account update_account get_account
    create_account_in_tree update_account_in_tree get_account_in_tree put_leaf write_mt
    set_idx_by_eth_addr_bjj put_idx_keys get_idx_by_eth_addr_bjj get_idx_by_eth_addr
    concat_eth_addr_token_id concat_eth_addr_bjj_token_id hash_value account_big_ints account_bytes
    account_layout account_from_bytes account_of_parts idx_bytes nonce_bytes nonce_from_bytes
    token_id_bytes token_id_from_bytes be of_be lookup insert toy_poseidon tx_of_l1 process_l2_tx
    find_to_idx fill_from_sender apply_l2 tx_of_pool_l2 collect_fee add_accumulated add_collected
    calc_fee_amount fee_factor_lsh60 fee_factors check_enough_balance
    can_add_l2_tx_that_needs_new_coord_l1_tx can_add_l2_tx resume ◌>>=◌ ◌>>◌ pure lift gets modify
    process end_iteration iteration discard require create_account_l1_tx get_coord_idx
    coord_account_for_token_id check_pending_to_create_future_txs receiver_auth with_space
    receiver_by_eth_addr receiver_by_bjj process_tx_to_eth_addr_bjj add_l1_coordinator_tx
    check_sender add_coord_account ensure_coord_account add_receiver create_receiver ensure_receiver
    settle noted finish_tx take_tx select_tx no_slots select_txs process_l2_txs process_l1_user_txs
atomic_fails = refl

process_l2_txs-BlamesOne_example : BlamesOne (send_more ∷ atomic ∷ []) fifth_group
process_l2_txs-BlamesOne_example =
    process_l2_txs-BlamesOne toy_crypto setup [] after_users 2 0 (send_more ∷ atomic ∷ [])
      fifth_group failed.1 (ap (λ r. (r, failed.1)) atomic_fails)

sort_l2_txs-together_example :
    together 5 (sort_l2_txs toy_go (send_more ∷ atomic ∷ send ∷ []) ((5, 9) ∷ [])) ≡ true
sort_l2_txs-together_example =
    sort_l2_txs-together 5 (omega arith) toy_go toy_go-Permutes (send_more ∷ atomic ∷ send ∷ [])
      ((5, 9) ∷ [])

-- An atomic group of two transactions, with slots for both and none for the one behind them.
abbrev first_member : PoolL2Tx
first_member = record send { tx_id = 4; atomic_group_id = 5 }

abbrev second_member : PoolL2Tx
second_member = record send_more { tx_id = 5; atomic_group_id = 5 }

abbrev last_send : PoolL2Tx
last_send = record send { tx_id = 6; nonce = 2 }

abbrev group_txs : List PoolL2Tx
group_txs = first_member ∷ second_member ∷ last_send ∷ []

abbrev five_slots : Setup
five_slots = record setup { config = record setup.config { max_tx = 5 } }

abbrev with_group : Selection
with_group = (process_l2_txs toy_crypto five_slots [] after_users 2 0 group_txs).1

group_together : together 5 group_txs ≡ true
unfolding together heads count_if
group_together = refl

group_selected :
    ((process_l2_txs toy_crypto five_slots [] after_users 2 0 group_txs).0 ≡ next tt)
    × (members 5 with_group.selected ≡ 2)
    × (length with_group.non_selected ≡ 1)
unfolding process_l1_tx apply_l1 finish_l1 finish_exit apply_exit leave leave_tree add_exit
    create_exit update_exit apply_transfer apply_deposit apply_create_account
    apply_create_account_deposit_transfer debit debit_l1 debit_l2 credit read_receiver
    compute_effective_amounts effective_create_transfer effective_sender effective_checks
    effective_receiver proc_create_account proc_update_account note_account advance_idx
    state_set_current_idx set_current_idx create_account update_account get_account
    create_account_in_tree update_account_in_tree get_account_in_tree put_leaf write_mt
    set_idx_by_eth_addr_bjj put_idx_keys get_idx_by_eth_addr_bjj get_idx_by_eth_addr
    concat_eth_addr_token_id concat_eth_addr_bjj_token_id hash_value account_big_ints account_bytes
    account_layout account_from_bytes account_of_parts idx_bytes nonce_bytes nonce_from_bytes
    token_id_bytes token_id_from_bytes be of_be lookup insert toy_poseidon tx_of_l1 process_l2_tx
    find_to_idx fill_from_sender apply_l2 tx_of_pool_l2 collect_fee add_accumulated add_collected
    calc_fee_amount fee_factor_lsh60 fee_factors check_enough_balance
    can_add_l2_tx_that_needs_new_coord_l1_tx can_add_l2_tx resume ◌>>=◌ ◌>>◌ pure lift gets modify
    process end_iteration iteration discard require create_account_l1_tx get_coord_idx
    coord_account_for_token_id check_pending_to_create_future_txs receiver_auth with_space
    receiver_by_eth_addr receiver_by_bjj process_tx_to_eth_addr_bjj add_l1_coordinator_tx
    check_sender add_coord_account ensure_coord_account add_receiver create_receiver ensure_receiver
    settle noted finish_tx take_tx select_tx no_slots select_txs process_l2_txs process_l1_user_txs
    count_if
group_selected = (refl, refl, refl)

process_l2_txs-Whole_example :
    (members 5 with_group.unforjable ≡ 0)
    × (((members 5 with_group.selected ≡ 0) × (together 5 with_group.non_selected ≡ true))
        ⊎ (members 5 with_group.non_selected ≡ 0))
process_l2_txs-Whole_example =
    process_l2_txs-Whole 5 (omega arith) toy_crypto five_slots [] after_users 2 0 group_txs
      with_group group_together (ap (λ r. (r, with_group)) group_selected.0)

-- The batch of two users, the coordinator's account and a transfer: the second transfer has no slot,
-- and the atomic group is discarded after one restart.
abbrev batch : Option (Result Batch × StateDb)
batch =
    get_l1_l2_tx_selection toy_crypto setup toy_go [] (send ∷ send_more ∷ atomic ∷ []) users fresh

-- The numbers of the selected and of the discarded transactions.
abbrev sizes : Option (Result Batch × StateDb) → Option (ℕ × ℕ)
sizes (some (ok b, s)) = some (length b.l2_txs, length b.discarded)
sizes _ = none

batch_runs : sizes batch ≡ some (1, 2)
unfolding process_l1_tx apply_l1 finish_l1 finish_exit apply_exit leave leave_tree add_exit
    create_exit update_exit apply_transfer apply_deposit apply_create_account
    apply_create_account_deposit_transfer debit debit_l1 debit_l2 credit read_receiver
    compute_effective_amounts effective_create_transfer effective_sender effective_checks
    effective_receiver proc_create_account proc_update_account note_account advance_idx
    state_set_current_idx set_current_idx create_account update_account get_account
    create_account_in_tree update_account_in_tree get_account_in_tree put_leaf write_mt
    set_idx_by_eth_addr_bjj put_idx_keys get_idx_by_eth_addr_bjj get_idx_by_eth_addr
    concat_eth_addr_token_id concat_eth_addr_bjj_token_id hash_value account_big_ints account_bytes
    account_layout account_from_bytes account_of_parts idx_bytes nonce_bytes nonce_from_bytes
    token_id_bytes token_id_from_bytes be of_be lookup insert toy_poseidon tx_of_l1 process_l2_tx
    find_to_idx fill_from_sender apply_l2 tx_of_pool_l2 collect_fee add_accumulated add_collected
    calc_fee_amount fee_factor_lsh60 fee_factors check_enough_balance
    can_add_l2_tx_that_needs_new_coord_l1_tx can_add_l2_tx resume ◌>>=◌ ◌>>◌ pure lift gets modify
    process end_iteration iteration discard require create_account_l1_tx get_coord_idx
    coord_account_for_token_id check_pending_to_create_future_txs receiver_auth with_space
    receiver_by_eth_addr receiver_by_bjj process_tx_to_eth_addr_bjj add_l1_coordinator_tx
    check_sender add_coord_account ensure_coord_account add_receiver create_receiver ensure_receiver
    settle noted finish_tx take_tx select_tx no_slots select_txs process_l2_txs find_failed
    set_info_for_failed_atomic_tx filter_failed_atomic_groups add_to_group collect concat
    request_offset_2_relative_position same_amount matches_request nth requested_tx valid_from
    is_atomic_group_valid mark_invalid split_groups filter_invalid_atomic_groups sum_fees
    calculate_atomic_groups_average_fee insert_sorted slice_stable non_atomic_less merge sort_l2_txs
    selection_loop process_l1_user_txs coord_idxs_map add_fee distribute_fees finish_batch
    selectable choose end_selection no_selection start_selection get_l1_l2_tx_selection state_reset
    state_make_checkpoint make_checkpoint put_checkpoint reset list_checkpoints drop_above
    find_checkpoint open_content open_fresh no_gaps get_current_batch get_current_idx
batch_runs = refl
