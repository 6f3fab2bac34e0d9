-- ===== src/Tests/Messages.antt =====
-- The coordinator's messages at concrete numbers, over databases that note their calls.
use han_hermez_node.Exec.Ensures.{Outcome}
use han_hermez_node.Coordinator.Slots.{
  Slot, slot_num, relative_block, at_least, in_slot, can_forge_in, can_forge,
}
use han_hermez_node.Coordinator.Messages.{
  CoordinatorStats, ScVariablesPtr, Coordinator, CoordinatorOps, SyncedBatch, can_forge_at,
  can_forge_ahead, from_batch, drop_failed, start_or_drop, start_pipeline, start_or_stop, purge_if,
  external_batch_nums, sync_stats, handle_msg_sync_block,
}
use han_hermez_node.Coordinator.Messages.Running.{RunsWell, sync_stats-RunsWell}
use han_hermez_node.Coordinator.Messages.Reorg.{handle_msg_sync_block-external}
use han_hermez_node.Tests.Pipeline.{note, purger}
use han_hermez_node.Prelude.{
  ℕ, ◌+◌, ◌≡◌, refl, true, false, Option, none, some, List, [], ◌∷◌, arith,
}

abbrev coordinator_calls : CoordinatorOps (List ℕ)
coordinator_calls = record {
  reorg = λ n. note n;
  mark_invalid_old_nonces = λ n. note n;
  purge = λ n. note n;
  new_pipeline = λ n. note n;
  start_pipeline = λ n. note n;
  stop_pipeline = λ w. 99 ∷ w;
  set_sync_stats_vars = λ stats vars w. w;
  discard_pipeline = λ n w. w;
}

abbrev slot_of : ℕ → ℕ → Slot
slot_of first forger = record {
  start_block = first;
  end_block = first + 39;
  forger_commitment = false;
  forger = forger;
}

abbrev coordinator_stats : CoordinatorStats
coordinator_stats = record {
  eth_block = 190;
  sync_block = 189;
  current_slot = slot_of 180 7;
  next_slot = slot_of 220 8;
  last_batch = record { batch_num = 12; forger_addr = 7; state_root = some 5 };
}

abbrev coordinator : Option ℕ → Coordinator (List ℕ)
coordinator pipeline = record {
  cfg = record {
    forger_address = 7;
    schedule_batch_blocks_ahead_check = 5;
    start_slot_blocks_delay = 2;
    must_forge_at_slot_deadline = true;
  };
  consts = record { blocks_per_slot = 40; genesis_block_num = 100 };
  vars = record { forge_l1_l2_batch_timeout = 10; auction = record { slot_deadline = 20 } };
  stats = coordinator_stats;
  pipeline_num = 3;
  pipeline_from_batch = record { batch_num = 0; forger_addr = 0; state_root = none };
  pipeline = pipeline;
  last_non_failed_batch_num = 11;
  purger = purger;
  world = [];
}

-- The fourth pipeline starts behind the last batch.
starts : (sync_stats coordinator_calls (coordinator none)).1.pipeline ≡ some 4
unfolding sync_stats start_or_stop start_pipeline start_or_drop drop_failed from_batch
    can_forge_ahead can_forge_at purge_if can_forge can_forge_in in_slot relative_block slot_num
    at_least
starts = refl

sync_stats-RunsWell_example :
    Outcome
      (λ _. RunsWell coordinator_calls (coordinator none))
      (RunsWell coordinator_calls (coordinator none))
      (sync_stats coordinator_calls (coordinator none))
    × ((from_batch coordinator_calls (coordinator none)).batch_num ≡ 12)
sync_stats-RunsWell_example = sync_stats-RunsWell coordinator_calls (coordinator none)

abbrev synced_batches : List SyncedBatch
synced_batches =
    record { batch_num = 10; forger_addr = 7 } ∷ record { batch_num = 11; forger_addr = 8 } ∷ []

abbrev no_vars : ScVariablesPtr
no_vars = record { rollup = none; auction = none }

found : external_batch_nums coordinator_calls 7 synced_batches ≡ 11 ∷ []
unfolding external_batch_nums
found = refl

-- Batch 11 is another's, batch 10 was ours.
handle_msg_sync_block-external_example :
    let after =
      (handle_msg_sync_block coordinator_calls coordinator_stats no_vars synced_batches
        (coordinator (some 3))).1.world in
    (◌≡◌ {A = Option ℕ} (some 3) none → after ≡ 10 ∷ [])
    × ((num : ℕ) → some 3 ≡ some num → after ≡ 9 ∷ 99 ∷ [])
handle_msg_sync_block-external_example =
    handle_msg_sync_block-external coordinator_calls (coordinator (some 3)) coordinator_stats
      no_vars synced_batches 11 [] refl found (omega arith)
