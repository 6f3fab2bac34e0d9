-- ===== src/Coordinator/Messages.antt =====
-- The messages of the coordinator (coordinator/coordinator.go): `syncStats`, which starts and stops the
-- pipeline, `handleMsgSyncBlock`, `handleReorg` and `handleStopPipeline`. The pool, the pipeline and the
-- transaction manager stand behind `CoordinatorOps`. Block and batch numbers are not negative.
pub mod Running
pub mod Reorg
use han_hermez_node.Exec.{Exec, pure, gets, modify, zoom, ◌>>=◌, ◌>>◌}
use han_hermez_node.Coordinator.Slots.{
  AuctionConstants, AuctionVariables, Slot, relative_block, at_least, can_forge,
}
use han_hermez_node.Coordinator.Purger.{Purger, purge_maybe, invalidate_maybe}
use han_hermez_node.Prelude.{
  ℕ, ◌+◌, ◌-◌, Bool, true, false, not, ◌&&◌, ◌||◌, Option, none, some, List, [], ◌∷◌, ltb, ◌==◌,
  if◌then◌else◌, Result, ok, err,
}

-- The fields of `Config` that the messages read
pub record CoordinatorCfg : Type 0 where
  pub forger_address : ℕ
  pub schedule_batch_blocks_ahead_check : ℕ
  pub start_slot_blocks_delay : ℕ
  pub must_forge_at_slot_deadline : Bool

-- The batch behind which the pipeline forges; a state root of none is nil.
pub record FromBatch : Type 0 where
  pub batch_num : ℕ
  pub forger_addr : ℕ
  pub state_root : Option ℕ

-- The fields of `synchronizer.Stats`
pub record CoordinatorStats : Type 0 where
  pub eth_block : ℕ
  pub sync_block : ℕ
  pub current_slot : Slot
  pub next_slot : Slot
  pub last_batch : FromBatch

-- `Stats.Synced`
abbrev pub synced : CoordinatorStats → Bool
synced stats = stats.eth_block == stats.sync_block

-- `common.SCVariables` and `SCVariablesPtr`, without the variables that nothing here reads
pub record ScVariables : Type 0 where
  pub forge_l1_l2_batch_timeout : ℕ
  pub auction : AuctionVariables

pub record ScVariablesPtr : Type 0 where
  pub rollup : Option ℕ
  pub auction : Option AuctionVariables

-- `updateSCVars`
unfoldable pub update_sc_vars : ScVariables → ScVariablesPtr → ScVariables
update_sc_vars vars update = record {
  forge_l1_l2_batch_timeout = elim (update.rollup) [
    | none ↦ vars.forge_l1_l2_batch_timeout
    | some v ↦ v
  ];
  auction = elim (update.auction) [ none ↦ vars.auction | some v ↦ v ];
}

-- `Coordinator`; the pipeline is its sequential number.
pub record Coordinator (W : Type 0) : Type 0 where
  pub cfg : CoordinatorCfg
  pub consts : AuctionConstants
  pub vars : ScVariables
  pub stats : CoordinatorStats
  pub pipeline_num : ℕ
  pub pipeline_from_batch : FromBatch
  pub pipeline : Option ℕ
  pub last_non_failed_batch_num : ℕ
  pub purger : Purger
  pub world : W

-- The calls of the pool, the pipeline and the transaction manager
pub record CoordinatorOps (W : Type 0) : Type 0 where
  pub reorg : ℕ → Exec W (Unit {0})
  pub mark_invalid_old_nonces : ℕ → Exec W (Unit {0})
  pub purge : ℕ → Exec W (Unit {0})
  pub new_pipeline : ℕ → Exec W (Unit {0})
  pub start_pipeline : ℕ → Exec W (Unit {0})
  pub stop_pipeline : W → W
  pub set_sync_stats_vars : CoordinatorStats → ScVariablesPtr → W → W
  pub discard_pipeline : ℕ → W → W

-- A batch of `MsgSyncBlock`
pub record SyncedBatch : Type 0 where
  pub batch_num : ℕ
  pub forger_addr : ℕ

module _ {W : Type 0} (ops : CoordinatorOps W) where
  abbrev pub calls : {A : Type 0} → Exec W A → Exec (Coordinator W) A
  calls m = zoom (λ c. c.world) (λ w c. record c { world = w }) m

  -- `canForgeAt`
  unfoldable pub can_forge_at : Coordinator W → ℕ → Bool
  can_forge_at c block =
      can_forge c.consts c.vars.auction c.stats.current_slot c.stats.next_slot c.cfg.forger_address
        block c.cfg.must_forge_at_slot_deadline

  -- The first lines of `syncStats`: the next block, and one further ahead if that is configured
  unfoldable pub can_forge_ahead : Coordinator W → Bool
  can_forge_ahead c =
      let next = c.stats.eth_block + 1 in
      if can_forge_at c next && not (c.cfg.schedule_batch_blocks_ahead_check == 0)
      then can_forge_at c (next + c.cfg.schedule_batch_blocks_ahead_check)
      else can_forge_at c next

  -- The batch from which `syncStats` starts a pipeline
  unfoldable pub from_batch : Coordinator W → FromBatch
  from_batch c =
      if ltb c.stats.last_batch.batch_num c.last_non_failed_batch_num
      then record {
        batch_num = c.last_non_failed_batch_num;
        forger_addr = c.cfg.forger_address;
        state_root = some 0;
      }
      else c.stats.last_batch

  abbrev pub set_pipeline : Option ℕ → Coordinator W → Coordinator W
  set_pipeline pipeline c = record c { pipeline = pipeline }

  abbrev pub count_pipeline : Coordinator W → Coordinator W
  count_pipeline c = record c { pipeline_num = c.pipeline_num + 1 }

  abbrev pub stop_running : Coordinator W → Coordinator W
  stop_running c = record c { pipeline = none; world = ops.stop_pipeline c.world }

  abbrev pub start_from : FromBatch → Coordinator W → Coordinator W
  start_from batch c = record c { pipeline = some c.pipeline_num; pipeline_from_batch = batch }

  -- `pipeline.Start`, after whose error the pipeline is nil again
  unfoldable pub drop_failed : Result (Unit {0}) × Coordinator W → Result (Unit {0}) × Coordinator W
  drop_failed (ok u, c) = (ok u, c)
  drop_failed (err e, c) = (err e, set_pipeline none c)

  unfoldable pub start_or_drop : ℕ → Exec (Coordinator W) (Unit {0})
  unfolding drop_failed
  start_or_drop batch_num c = drop_failed (calls (ops.start_pipeline batch_num) c)

  unfoldable pub start_pipeline : FromBatch → Exec (Coordinator W) (Unit {0})
  unfolding start_or_drop
  start_pipeline batch = do
    calls (ops.reorg batch.batch_num)
    modify count_pipeline
    c ← gets (λ c. c)
    calls (ops.new_pipeline c.pipeline_num)
    modify (start_from batch)
    start_or_drop batch.batch_num

  abbrev pub set_purger : Purger → Coordinator W → Coordinator W
  set_purger purger c = record c { purger = purger }

  -- A call of the purger and its database, where no pipeline runs
  unfoldable pub run_idle : Exec W (Unit {0}) → Bool × Purger → Exec (Coordinator W) (Unit {0})
  run_idle m (may, purger) = modify (set_purger purger) >> (if may then calls m else pure tt)

  unfoldable pub purge_idle : Coordinator W → Exec (Coordinator W) (Unit {0})
  purge_idle c = do
    let batch = c.stats.last_batch.batch_num
    run_idle (ops.mark_invalid_old_nonces batch)
        (invalidate_maybe c.purger c.stats.sync_block batch)
    c' ← gets (λ c. c)
    run_idle (ops.purge batch) (purge_maybe c'.purger c.stats.sync_block batch)

  -- The choice of `syncStats`, by whether a pipeline runs and whether we can forge
  unfoldable pub start_or_stop : Coordinator W → Option ℕ → Bool → Exec (Coordinator W) (Unit {0})
  start_or_stop c none true =
      if at_least (relative_block c.consts (c.stats.eth_block + 1)) c.cfg.start_slot_blocks_delay
      then start_pipeline (from_batch c)
      else pure tt
  start_or_stop c none false = pure tt
  start_or_stop c (some num) true = pure tt
  start_or_stop c (some num) false = modify stop_running

  unfoldable pub purge_if : Coordinator W → Option ℕ → Exec (Coordinator W) (Unit {0})
  purge_if c none = purge_idle c
  purge_if c (some num) = pure tt

  -- `syncStats`
  unfoldable pub sync_stats : Exec (Coordinator W) (Unit {0})
  sync_stats = do
    c ← gets (λ c. c)
    start_or_stop c c.pipeline (can_forge_ahead c)
    c' ← gets (λ c. c)
    purge_if c' c'.pipeline

  -- `handleStopPipeline`: the batch to go back to
  unfoldable pub stop_batch : Coordinator W → ℕ → ℕ
  stop_batch c failed = if failed == 0 then c.stats.last_batch.batch_num else failed - 1

  unfoldable pub stop_if : Option ℕ → Coordinator W → Coordinator W
  stop_if none c = c
  stop_if (some num) c = stop_running c

  unfoldable pub handle_stop_pipeline : ℕ → Exec (Coordinator W) (Unit {0})
  handle_stop_pipeline failed = do
    c ← gets (λ c. c)
    modify (stop_if c.pipeline)
    calls (ops.reorg (stop_batch c failed))
    modify (λ t. record t { last_non_failed_batch_num = stop_batch c failed })

  -- The batches of others
  unfoldable pub external_batch_nums : ℕ → List SyncedBatch → List ℕ
  external_batch_nums forger [] = []
  external_batch_nums forger (b ∷ bs) =
      if b.forger_addr == forger
      then external_batch_nums forger bs
      else b.batch_num ∷ external_batch_nums forger bs

  -- The stats and variables that a message brings, also to the transaction manager and to a pipeline
  unfoldable pub set_stats : CoordinatorStats → ScVariablesPtr → Coordinator W → Coordinator W
  set_stats stats vars c = record c {
    stats = stats;
    vars = update_sc_vars c.vars vars;
    world = ops.set_sync_stats_vars stats vars c.world;
  }

  -- What `handleMsgSyncBlock` does for batches of others
  unfoldable pub drop_external : Option ℕ → List ℕ → Exec (Coordinator W) (Unit {0})
  drop_external pipeline [] = pure tt
  drop_external (some num) (first ∷ rest) = handle_stop_pipeline (first - 1)
  drop_external none (first ∷ rest) = calls (ops.reorg (first - 1))

  -- `handleMsgSyncBlock`
  unfoldable pub handle_msg_sync_block :
      CoordinatorStats → ScVariablesPtr → List SyncedBatch → Exec (Coordinator W) (Unit {0})
  handle_msg_sync_block stats vars batches = do
    modify (set_stats stats vars)
    c ← gets (λ c. c)
    drop_external c.pipeline (external_batch_nums c.cfg.forger_address batches)
    if synced stats then sync_stats else pure tt

  -- Whether the batch behind which the pipeline forges is the last one, by its state root
  unfoldable pub same_root : Option ℕ → Option ℕ → Bool
  same_root (some a) (some b) = a == b
  same_root _ _ = false

  -- `handleReorg`
  unfoldable pub handle_reorg : CoordinatorStats → ScVariablesPtr → Exec (Coordinator W) (Unit {0})
  handle_reorg stats vars = do
    modify (set_stats stats vars)
    c ← gets (λ c. c)
    let last = c.stats.last_batch
    if last.forger_addr == c.cfg.forger_address
          || same_root last.state_root c.pipeline_from_batch.state_root
        then pure tt
        else (modify (λ t. record t { world = ops.discard_pipeline t.pipeline_num t.world })
            >> handle_stop_pipeline 0)
