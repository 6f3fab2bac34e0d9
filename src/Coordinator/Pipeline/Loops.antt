-- ===== src/Coordinator/Pipeline/Loops.antt =====
-- The two goroutines that `Pipeline.Start` (coordinator/pipeline.go) runs: one forges batches and hands
-- them over in a channel, the other waits for their proofs and gives them to the transaction manager.
-- They interleave, so their steps are events; a step that must wait leaves all as it is. The channel's
-- capacity only delays the first loop, and is left out.
pub mod Outcomes
pub mod Invariant
pub mod Order
pub mod Carried
pub mod Attempts
pub mod Once
pub mod Second
use han_hermez_node.Exec.{Exec, pure, raise, ◌>>=◌, ◌>>◌}
use han_hermez_node.Coordinator.Pipeline.{
  Pipeline, PipelineState, PipelineStats, BatchInfo, PipelineOps, calls, forge_batch,
}
use han_hermez_node.Prelude.{
  ℕ, ◌+◌, ◌-◌, Bool, true, false, Option, none, some, List, [], ◌∷◌, ◌++◌, ◌==◌, if◌then◌else◌,
  Error, Result, ok, err,
}

-- The pipeline, the variable `batchNum` that both loops share, the batches in the channel, the batch
-- whose proof is waited for, the numbers that `txManager.AddBatch` got, and the failed batch of each
-- `MsgStopPipeline`, the last first in both.
pub record Loops (W : Type 0) : Type 0 where
  pub pipeline : Pipeline W
  pub batch_num : ℕ
  pub sent : List BatchInfo
  pub waiting : Option BatchInfo
  pub added : List ℕ
  pub stops : List ℕ

-- A batch that is skipped by policy is an error of `handleForgeBatch`.
abbrev pub or_skip : {S : Type 0} → Option BatchInfo → Exec S BatchInfo
or_skip none = raise Error.skip_batch_by_policy
or_skip (some info) = pure info

module _ {W : Type 0} (ops : PipelineOps W) where
  -- `handleForgeBatch` with the server proof that the pool gave, before the proof is put back on errors
  unfoldable pub with_server_proof :
      (ℕ → ℕ) → (now batch_num server_proof : ℕ) → Exec (Pipeline W) BatchInfo
  with_server_proof schedule_deadline now batch_num server_proof = do
    made ← forge_batch ops schedule_deadline now batch_num
    info ← or_skip made
    calls ops (ops.calculate_proof server_proof)
    pure (record info { server_proof = server_proof })

  unfoldable pub put_back : ℕ → Result BatchInfo × Pipeline W → Result BatchInfo × Pipeline W
  put_back server_proof (ok info, p) = (ok info, p)
  put_back server_proof (err e, p) =
      (err e, record p { provers_pool = p.provers_pool ++ (server_proof ∷ []) })

  -- `handleForgeBatch`
  unfoldable pub handle_forge_batch :
      (ℕ → ℕ) → (now batch_num server_proof : ℕ) → Exec (Pipeline W) BatchInfo
  unfolding put_back with_server_proof
  handle_forge_batch schedule_deadline now batch_num server_proof p =
      put_back server_proof (with_server_proof schedule_deadline now batch_num server_proof p)

  -- `revertPoolChanges`: an error is only logged.
  unfoldable pub revert_pool_changes : ℕ → Pipeline W → Pipeline W
  revert_pool_changes failed p = (calls ops (ops.reorg (failed - 1)) p).1

  -- The two errors after which the loop tries again
  unfoldable pub is_benign : Error → Bool
  is_benign Error.last_l1_batch_not_synced = true
  is_benign Error.skip_batch_by_policy = true
  is_benign _ = false

  -- What the first loop does with the outcome of `handleForgeBatch`
  unfoldable pub forge_outcome :
      (done batch_num : ℕ) → Loops W → Result BatchInfo × Pipeline W → Loops W
  forge_outcome done batch_num l (ok info, p) = record l {
    pipeline = record p {
      last_forge_time = done;
      state = record p.state { batch_num = batch_num };
    };
    batch_num = batch_num;
    sent = l.sent ++ (info ∷ []);
  }
  forge_outcome done batch_num l (err e, p) =
      if is_benign e
      then record l { pipeline = revert_pool_changes batch_num p; batch_num = batch_num }
      else record l {
        pipeline = revert_pool_changes batch_num (record p { err_at_batch_num = batch_num });
        batch_num = batch_num;
        stops = batch_num ∷ l.stops;
      }

  -- The first loop with the pool of provers, where it waits if none is free
  unfoldable pub forge_next : (ℕ → ℕ) → (now done : ℕ) → Loops W → List ℕ → Loops W
  forge_next schedule_deadline now done l [] = l
  forge_next schedule_deadline now done l (server_proof ∷ rest) =
      let n = l.pipeline.state.batch_num + 1 in
      forge_outcome done n l (
        handle_forge_batch schedule_deadline now n server_proof
          (record l.pipeline { provers_pool = rest }))

  -- A tick of the first loop, from one time to another
  unfoldable pub forge_tick : (ℕ → ℕ) → (now done : ℕ) → Loops W → Loops W
  forge_tick schedule_deadline now done l =
      if l.pipeline.err_at_batch_num == 0
      then forge_next schedule_deadline now done l l.pipeline.provers_pool
      else l

  -- The second loop takes a batch from the channel, and drops it after an error.
  unfoldable pub take_batch : Loops W → List BatchInfo → Option BatchInfo → Loops W
  take_batch l [] waiting = l
  take_batch l (info ∷ rest) (some other) = l
  take_batch l (info ∷ rest) none =
      if l.pipeline.err_at_batch_num == 0
      then record l { sent = rest; waiting = some info }
      else record l { pipeline = revert_pool_changes l.batch_num l.pipeline; sent = rest }

  -- `waitServerProof` returns.
  unfoldable pub proof_outcome : Loops W → BatchInfo → Result (Unit {0}) × Pipeline W → Loops W
  proof_outcome l info (ok u, p) = record l {
    pipeline = record p { provers_pool = p.provers_pool ++ (info.server_proof ∷ []) };
    waiting = none;
    added = info.batch_num ∷ l.added;
  }
  proof_outcome l info (err e, p) = record l {
    pipeline = revert_pool_changes l.batch_num (record p { err_at_batch_num = info.batch_num });
    waiting = none;
    stops = info.batch_num ∷ l.stops;
  }

  unfoldable pub proof_tick : Loops W → Option BatchInfo → Loops W
  proof_tick l none = l
  proof_tick l (some info) =
      proof_outcome l info (calls ops (ops.get_proof info.server_proof) l.pipeline)

  -- What can happen: a tick of the first loop between two times, the second loop takes a batch or gets the
  -- result of a proof, or the synchronizer's stats arrive.
  pub data Event : Type 0 where
    forge : (now done : ℕ) → Event
    take_next : Event
    proof : Event
    sync : PipelineStats → Event

  unfoldable pub step : (ℕ → ℕ) → Loops W → Event → Loops W
  step schedule_deadline l (forge now done) = forge_tick schedule_deadline now done l
  step schedule_deadline l take_next = take_batch l l.sent l.waiting
  step schedule_deadline l proof = proof_tick l l.waiting
  step schedule_deadline l (sync stats) = record l {
    pipeline = record l.pipeline { stats = stats };
  }

  unfoldable pub run : (ℕ → ℕ) → Loops W → List Event → Loops W
  run schedule_deadline l [] = l
  run schedule_deadline l (e ∷ es) = run schedule_deadline (step schedule_deadline l e) es

-- The loops after `Start` from a batch: the pool has its provers and nothing was forged.
unfoldable pub start : {W : Type 0} → Pipeline W → Loops W
start p = record {
  pipeline = record p { err_at_batch_num = 0 };
  batch_num = p.state.batch_num;
  sent = [];
  waiting = none;
  added = [];
  stops = [];
}
