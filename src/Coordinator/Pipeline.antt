-- ===== src/Coordinator/Pipeline.antt =====
-- The pipeline that forges batches (coordinator/pipeline.go): the policies, `forgeBatch` and the two
-- loops of `Start`. Times, block, slot and batch numbers are not negative, and the number -1 of the last
-- L1 batch before the first one is left out. The pool, the history, the selector and the batch builder
-- stand behind `PipelineOps`, on a state of their own; a run that the context cuts off is left out, and
-- so is what only the debug information and the logs read.
pub mod Forging
pub mod Batch
pub mod Policy
pub mod Loops
pub mod Reset
use han_hermez_node.Exec.{Exec, pure, ensure, gets, modify, zoom, ◌>>=◌, ◌>>◌}
use han_hermez_node.Common.Tx.{L1Tx, L2Tx, PoolL2Tx}
use han_hermez_node.Common.Signing.{l2_tx_of_pool}
use han_hermez_node.Coordinator.Purger.{Purger, purge_maybe, invalidate_maybe}
use han_hermez_node.Prelude.{
  ℕ, ◌+◌, ◌-◌, Bool, true, false, not, ◌&&◌, ◌||◌, Option, none, some, List, [], ◌∷◌, map, ltb, leb,
  ◌==◌, if◌then◌else◌, Error,
}

-- The fields of `Config` that the policies read.
pub record PipelineCfg : Type 0 where
  pub forge_once_per_slot_if_txs : Bool
  pub ignore_slot_commitment : Bool
  pub forge_delay : ℕ
  pub forge_no_txs_delay : ℕ

-- The fields of `synchronizer.Stats` and of the variables that the pipeline reads.
pub record PipelineStats : Type 0 where
  pub sync_block : ℕ
  pub eth_block : ℕ
  pub last_forge_l1_txs_num : ℕ
  pub last_l1_batch_block : ℕ
  pub slot_num : ℕ
  pub forger_commitment : Bool
  pub forge_l1_l2_batch_timeout : ℕ

-- `state`; the slot -1 is none.
pub record PipelineState : Type 0 where
  pub batch_num : ℕ
  pub last_scheduled_l1_batch_block_num : ℕ
  pub last_forge_l1_txs_num : ℕ
  pub last_slot_forged : Option ℕ

pub record Pipeline (W : Type 0) : Type 0 where
  pub cfg : PipelineCfg
  pub state : PipelineState
  pub err_at_batch_num : ℕ
  pub last_forge_time : ℕ
  pub provers_pool : List ℕ
  pub purger : Purger
  pub stats : PipelineStats
  pub world : W

-- `BatchInfo`, without what only the call to the contract and the debug information read.
pub record BatchInfo : Type 0 where
  pub batch_num : ℕ
  pub server_proof : ℕ
  pub l1_batch : Bool
  pub l1_user_txs : List L1Tx
  pub l1_coord_txs : List L1Tx
  pub l2_txs : List L2Tx

-- `PoolL2TxsToL2Txs`
abbrev pub pool_l2_txs_to_l2_txs : List PoolL2Tx → List L2Tx
pool_l2_txs_to_l2_txs txs = map l2_tx_of_pool txs

-- What the selector returns, without what only the batch builder and the contract read.
pub record TxSelection : Type 0 where
  pub l1_user_txs : List L1Tx
  pub l1_coord_txs : List L1Tx
  pub pool_l2_txs : List PoolL2Tx
  pub discarded_l2_txs : List PoolL2Tx

-- The calls of the databases, the selector, the batch builder and the proof servers.
pub record PipelineOps (W : Type 0) : Type 0 where
  pub mark_invalid_old_nonces : ℕ → Exec W (Unit {0})
  pub purge : ℕ → Exec W (Unit {0})
  pub get_unforged_l1_user_txs : ℕ → Exec W (List L1Tx)
  pub get_unforged_l1_user_future_txs : ℕ → Exec W (List L1Tx)
  pub get_unforged_l1_user_txs_count : Exec W ℕ
  pub get_l1_l2_tx_selection : List L1Tx → List L1Tx → Exec W TxSelection
  pub get_l2_tx_selection : List L1Tx → Exec W TxSelection
  pub selector_reset : ℕ → Exec W (Unit {0})
  pub start_forging : List PoolL2Tx → ℕ → Exec W (Unit {0})
  pub update_txs_info : List PoolL2Tx → ℕ → Exec W (Unit {0})
  pub invalidate_old_nonces : List PoolL2Tx → ℕ → Exec W (Unit {0})
  pub build_batch : TxSelection → Exec W (Unit {0})
  pub calculate_proof : ℕ → Exec W (Unit {0})
  pub get_proof : ℕ → Exec W (Unit {0})
  pub reorg : ℕ → Exec W (Unit {0})

-- `slotCommitted`
unfoldable pub slot_committed : PipelineStats → PipelineState → Bool
slot_committed stats state =
    stats.forger_commitment
    || elim (state.last_slot_forged) [ none ↦ false | some slot ↦ stats.slot_num == slot ]

-- `forgePolicySkipPreSelection`. The time since the last batch is below a delay where the time is
-- below the sum.
unfoldable pub forge_policy_skip_pre_selection :
    PipelineCfg → PipelineStats → PipelineState → (last_forge_time now : ℕ) → Bool
forge_policy_skip_pre_selection cfg stats state last_forge_time now =
    let committed = slot_committed stats state in
    if cfg.forge_once_per_slot_if_txs
    then committed
    else if not cfg.ignore_slot_commitment && not committed
    then false
    else ltb now (last_forge_time + cfg.forge_delay)

-- The end of `forgePolicySkipPostSelection`, with whether there are transactions to forge
unfoldable pub skip_post_selection :
    PipelineCfg → PipelineStats → PipelineState → (last_forge_time now : ℕ) → Bool → Bool
skip_post_selection cfg stats state last_forge_time now pending =
    let committed = slot_committed stats state in
    if cfg.forge_once_per_slot_if_txs
    then if committed then true else not pending
    else if not cfg.ignore_slot_commitment && not committed
    then false
    else ltb now (last_forge_time + cfg.forge_no_txs_delay) && not pending

-- `shouldL1L2Batch`, with the share of the timeout that the floats of the configuration give
unfoldable pub should_l1_l2_batch : (ℕ → ℕ) → PipelineStats → PipelineState → Bool
should_l1_l2_batch schedule_deadline stats state =
    let last =
      if ltb state.last_scheduled_l1_batch_block_num stats.last_l1_batch_block
      then stats.last_l1_batch_block
      else state.last_scheduled_l1_batch_block_num in
    leb (last + schedule_deadline stats.forge_l1_l2_batch_timeout) (stats.eth_block + 1)

abbrev pub is_empty : {A : Type 0} → List A → Bool
is_empty [] = true
is_empty (x ∷ xs) = false

module _ {W : Type 0} (ops : PipelineOps W) where
  -- A call of a database
  abbrev pub calls : {A : Type 0} → Exec W A → Exec (Pipeline W) A
  calls m = zoom (λ p. p.world) (λ w p. record p { world = w }) m

  abbrev pub set_purger : Purger → Pipeline W → Pipeline W
  set_purger purger p = record p { purger = purger }

  -- `InvalidateMaybe` with its call, and `PurgeMaybe` with its call
  unfoldable pub run_invalidate : ℕ → Bool × Purger → Exec (Pipeline W) (Unit {0})
  run_invalidate batch_num (may, purger) =
      modify (set_purger purger)
      >> (if may then calls (ops.mark_invalid_old_nonces batch_num) else pure tt)

  unfoldable pub run_purge : ℕ → Bool × Purger → Exec (Pipeline W) (Unit {0})
  run_purge batch_num (may, purger) =
      modify (set_purger purger) >> (if may then calls (ops.purge batch_num) else pure tt)

  unfoldable pub run_purger : ℕ → Exec (Pipeline W) (Unit {0})
  run_purger batch_num = do
    p ← gets (λ p. p)
    run_invalidate batch_num (invalidate_maybe p.purger p.stats.sync_block batch_num)
    p' ← gets (λ p. p)
    run_purge batch_num (purge_maybe p'.purger p'.stats.sync_block batch_num)

  -- `pendingTxs` of `forgePolicySkipPostSelection`
  unfoldable pub pending_txs : Bool → TxSelection → Exec (Pipeline W) Bool
  pending_txs l1_batch s =
      if is_empty s.l1_user_txs && (is_empty s.l1_coord_txs && is_empty s.pool_l2_txs)
      then if l1_batch
        then (calls ops.get_unforged_l1_user_txs_count >>= λ count. pure (not (count == 0)))
        else pure false
      else pure true

  -- The selection of `forgeBatch`. An L2 batch has no L1 user transactions.
  unfoldable pub select_txs : Bool → Exec (Pipeline W) TxSelection
  select_txs true = do
    p ← gets (λ p. p)
    ensure (p.state.last_forge_l1_txs_num == p.stats.last_forge_l1_txs_num)
        Error.last_l1_batch_not_synced
    txs ← calls (ops.get_unforged_l1_user_txs (p.state.last_forge_l1_txs_num + 1))
    future ← calls (ops.get_unforged_l1_user_future_txs (p.state.last_forge_l1_txs_num + 1))
    calls (ops.get_l1_l2_tx_selection txs future)
  select_txs false = do
    p ← gets (λ p. p)
    future ← calls (ops.get_unforged_l1_user_future_txs p.state.last_forge_l1_txs_num)
    s ← calls (ops.get_l2_tx_selection future)
    pure (record s { l1_user_txs = [] })

  -- The change of the state for an L1 batch
  unfoldable pub count_l1_batch : Bool → Pipeline W → Pipeline W
  count_l1_batch false p = p
  count_l1_batch true p = record p {
    state = record p.state {
      last_scheduled_l1_batch_block_num = p.stats.eth_block + 1;
      last_forge_l1_txs_num = p.state.last_forge_l1_txs_num + 1;
    };
  }

  abbrev pub commit_slot : Pipeline W → Pipeline W
  commit_slot p = record p { state = record p.state { last_slot_forged = some p.stats.slot_num } }

  -- The second half of `forgeBatch`
  unfoldable pub forge_selected : ℕ → Bool → TxSelection → Exec (Pipeline W) BatchInfo
  unfolding count_l1_batch
  forge_selected batch_num l1_batch s = do
    modify (count_l1_batch l1_batch)
    calls (ops.start_forging s.pool_l2_txs batch_num)
    calls (ops.update_txs_info s.discarded_l2_txs batch_num)
    calls (ops.invalidate_old_nonces s.pool_l2_txs batch_num)
    calls (ops.build_batch s)
    modify commit_slot
    pure (record {
      batch_num = batch_num;
      server_proof = 0;
      l1_batch = l1_batch;
      l1_user_txs = s.l1_user_txs;
      l1_coord_txs = s.l1_coord_txs;
      l2_txs = pool_l2_txs_to_l2_txs s.pool_l2_txs;
    })

  -- `forgeBatch` behind its first policy, from the choice of the kind of batch on
  unfoldable pub forge_kind : (now batch_num : ℕ) → Bool → Exec (Pipeline W) (Option BatchInfo)
  forge_kind now batch_num l1_batch = do
    s ← select_txs l1_batch
    pending ← pending_txs l1_batch s
    p ← gets (λ p. p)
    if skip_post_selection p.cfg p.stats p.state p.last_forge_time now pending
        then (calls (ops.selector_reset (batch_num - 1)) >> pure none)
        else (forge_selected batch_num l1_batch s >>= λ info. pure (some info))

  -- `forgeBatch`: none is a batch that is skipped, with a reason.
  unfoldable pub forge_batch : (ℕ → ℕ) → (now batch_num : ℕ) → Exec (Pipeline W) (Option BatchInfo)
  forge_batch schedule_deadline now batch_num = do
    run_purger batch_num
    p ← gets (λ p. p)
    if forge_policy_skip_pre_selection p.cfg p.stats p.state p.last_forge_time now
        then pure none
        else forge_kind now batch_num (should_l1_l2_batch schedule_deadline p.stats p.state)
