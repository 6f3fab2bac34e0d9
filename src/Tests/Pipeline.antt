-- ===== src/Tests/Pipeline.antt =====
-- The pipeline at concrete numbers, over databases that note their calls.
use han_hermez_node.Exec.{Exec}
use han_hermez_node.Coordinator.Purger.{
  Purger, purge_maybe, invalidate_maybe, can_purge, can_invalidate,
}
use han_hermez_node.Coordinator.Pipeline.{
  PipelineCfg, Pipeline, BatchInfo, TxSelection, PipelineOps, slot_committed,
  forge_policy_skip_pre_selection, skip_post_selection, should_l1_l2_batch, run_invalidate,
  run_purge, run_purger, pending_txs, select_txs, count_l1_batch, forge_selected, forge_kind,
  forge_batch,
}
use han_hermez_node.Coordinator.Pipeline.Loops.{
  Loops, Event, forge, take_next, proof, sync, run, start, step, forge_tick, forge_next,
  forge_outcome, handle_forge_batch, with_server_proof, put_back, take_batch, proof_tick,
  proof_outcome,
}
use han_hermez_node.Coordinator.Pipeline.Loops.Once.{l1_on_way, l1_batches}
use han_hermez_node.Coordinator.Pipeline.Loops.Second.{run-once, run-one_l1}
use han_hermez_node.Coordinator.Pipeline.Loops.Invariant.{InOrder, awaited}
use han_hermez_node.Coordinator.Pipeline.Loops.Order.{run-InOrder}
use han_hermez_node.Coordinator.Pipeline.Reset.{ResetOps, reset_state, force_reset, reset_pipeline}
use han_hermez_node.Prelude.{
  none, ◌≤◌, if◌then◌else◌, get_or, ℕ, ◌+◌, ◌/◌, ◌≡◌, refl, Bool, true, false, some, List, [], ◌∷◌,
  arith, length, ok,
}

-- A call adds its number to the log.
abbrev pub note : ℕ → Exec (List ℕ) (Unit {0})
note n w = (ok tt, n ∷ w)

abbrev returns : {A : Type 0} → A → Exec (List ℕ) A
returns a w = (ok a, w)

abbrev nothing_selected : TxSelection
nothing_selected = record {
  l1_user_txs = [];
  l1_coord_txs = [];
  pool_l2_txs = [];
  discarded_l2_txs = [];
}

-- Two L1 transactions wait to be frozen.
abbrev databases : PipelineOps (List ℕ)
databases = record {
  mark_invalid_old_nonces = λ n. note n;
  purge = λ n. note n;
  get_unforged_l1_user_txs = λ n. returns [];
  get_unforged_l1_user_future_txs = λ n. returns [];
  get_unforged_l1_user_txs_count = returns 2;
  get_l1_l2_tx_selection = λ a b. returns nothing_selected;
  get_l2_tx_selection = λ a. returns nothing_selected;
  selector_reset = λ n. note n;
  start_forging = λ txs n. note n;
  update_txs_info = λ txs n. note n;
  invalidate_old_nonces = λ txs n. note n;
  build_batch = λ s. note 0;
  calculate_proof = λ n. note n;
  get_proof = λ n. note n;
  reorg = λ n. note n;
}

abbrev pub purger : Purger
purger = record {
  cfg = record {
    purge_batch_delay = 10;
    invalidate_batch_delay = 20;
    purge_block_delay = 10;
    invalidate_block_delay = 20;
  };
  last_purge_block = 0;
  last_purge_batch = 0;
  last_invalidate_block = 0;
  last_invalidate_batch = 0;
}

abbrev cfg_of : Bool → PipelineCfg
cfg_of once = record {
  forge_once_per_slot_if_txs = once;
  ignore_slot_commitment = true;
  forge_delay = 0;
  forge_no_txs_delay = 0;
}

abbrev pipeline_of : Bool → Pipeline (List ℕ)
pipeline_of once = record {
  cfg = cfg_of once;
  state = record {
    batch_num = 4;
    last_scheduled_l1_batch_block_num = 0;
    last_forge_l1_txs_num = 1;
    last_slot_forged = some 8;
  };
  err_at_batch_num = 0;
  last_forge_time = 90;
  provers_pool = 70 ∷ 71 ∷ [];
  purger = purger;
  stats = record {
    sync_block = 50;
    eth_block = 50;
    last_forge_l1_txs_num = 1;
    last_l1_batch_block = 30;
    slot_num = 9;
    forger_commitment = false;
    forge_l1_l2_batch_timeout = 20;
  };
  world = [];
}

abbrev half : ℕ → ℕ
half n = n / 2

abbrev batch_of : ℕ → Bool → BatchInfo
batch_of n l1_batch = record {
  batch_num = n;
  server_proof = 0;
  l1_batch = l1_batch;
  l1_user_txs = [];
  l1_coord_txs = [];
  l2_txs = [];
}

abbrev loops_of : Bool → Loops (List ℕ)
loops_of once = record {
  pipeline = pipeline_of once;
  batch_num = 4;
  sent = [];
  waiting = none;
  added = [];
  stops = [];
}

-- The deadline for an L1 batch has come, so the tick makes one.
tick_makes :
    ((forge_tick databases half 100 101 (loops_of true)).pipeline.state.batch_num ≡ 5)
    × (l1_on_way (forge_tick databases half 100 101 (loops_of false)) ≡ 1)
unfolding forge_tick forge_next forge_outcome handle_forge_batch with_server_proof put_back
    forge_batch forge_kind forge_selected count_l1_batch select_txs pending_txs run_purger run_purge
    run_invalidate should_l1_l2_batch skip_post_selection forge_policy_skip_pre_selection
    slot_committed purge_maybe invalidate_maybe can_purge can_invalidate l1_batches
tick_makes = (refl, refl)

none_on_way : l1_on_way (loops_of false) ≡ 0
unfolding l1_batches
none_on_way = refl

-- The first batch goes on, and the loop tries again in the slot.
abbrev in_slot : List (Event databases)
in_slot =
    take_next
    ∷ forge 110 111
    ∷ proof
    ∷ sync (record (pipeline_of true).stats { sync_block = 51; last_forge_l1_txs_num = 2 })
    ∷ forge 120 121
    ∷ []

run-once_example :
    (run databases half
      (forge_tick databases half 100 101 (loops_of true))
      in_slot).pipeline.state.batch_num
    ≡ (forge_tick databases half 100 101 (loops_of true)).pipeline.state.batch_num
run-once_example =
    run-once databases half 100 101 (loops_of true) in_slot refl
      (λ e. omega (arith, e, tick_makes.0)) (tt, (tt, (tt, (refl, (tt, tt)))))

-- An L2 batch follows, and the synchronizer sees none of them.
abbrev unseen : List (Event databases)
unseen =
    take_next
    ∷ forge 110 111
    ∷ proof
    ∷ sync (record (pipeline_of false).stats { eth_block = 51; slot_num = 10 })
    ∷ forge 120 121
    ∷ []

another_follows :
    (run databases half
      (forge_tick databases half 100 101 (loops_of false))
      unseen).pipeline.state.batch_num
    ≡ 7
unfolding forge_tick forge_next forge_outcome handle_forge_batch with_server_proof put_back
    forge_batch forge_kind forge_selected count_l1_batch select_txs pending_txs run_purger run_purge
    run_invalidate should_l1_l2_batch skip_post_selection forge_policy_skip_pre_selection
    slot_committed purge_maybe invalidate_maybe can_purge can_invalidate run step take_batch
    proof_tick proof_outcome
another_follows = refl

run-one_l1_example :
    (l1_on_way (
        forge_tick databases half 130 131
          (run databases half (forge_tick databases half 100 101 (loops_of false)) unseen))
      ≤ l1_on_way (run databases half (forge_tick databases half 100 101 (loops_of false)) unseen))
    × (l1_on_way (run databases half (forge_tick databases half 100 101 (loops_of false)) unseen)
        ≤ l1_on_way (forge_tick databases half 100 101 (loops_of false)))
    × ((run databases half
          (forge_tick databases half 100 101 (loops_of false))
          unseen).pipeline.state.last_forge_l1_txs_num
        ≡ 2)
run-one_l1_example =
    run-one_l1 databases half 100 101 (loops_of false) unseen 130 131
      (omega (arith, none_on_way, tick_makes.1)) (tt, (tt, (tt, (refl, (tt, tt)))))

-- Two batches are made, and the first gets its proof.
abbrev events : List (Event databases)
events =
    forge 100 101
    ∷ sync (record (pipeline_of false).stats { last_forge_l1_txs_num = 2 })
    ∷ take_next
    ∷ forge 110 111
    ∷ proof
    ∷ []

run-InOrder_example :
    InOrder 4 (run databases half (start (pipeline_of false)) events).added
    × ((run databases half (start (pipeline_of false)) events).pipeline.err_at_batch_num ≡ 0
        → length (run databases half (start (pipeline_of false)) events).pipeline.provers_pool
            + length (run databases half (start (pipeline_of false)) events).sent
            + awaited (run databases half (start (pipeline_of false)) events).waiting
          ≡ 2)
run-InOrder_example = run-InOrder databases half (pipeline_of false) events

-- The local checkpoint has another root than the history.
abbrev state_databases : ResetOps (List ℕ)
state_databases = record {
  selector_checkpoint_exists = λ n. returns true;
  selector_reset = λ n from_synchronizer. returns tt;
  builder_checkpoint_exists = λ n. returns true;
  builder_reset = λ n from_synchronizer w. (ok tt, (if from_synchronizer then 44 else 13) ∷ w);
  get_state_root = λ n. returns (some 44);
  local_root = λ w. get_or w 0 0;
}

forces :
    (reset_pipeline databases state_databases 4 (pipeline_of true).stats (pipeline_of true)).1.world
    ≡ 44 ∷ 13 ∷ []
unfolding reset_pipeline force_reset reset_state
forces = refl
