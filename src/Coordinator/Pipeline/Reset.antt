-- ===== src/Coordinator/Pipeline/Reset.antt =====
-- `reset` of coordinator/pipeline.go, with which `Start` begins. The state databases of the selector and
-- of the batch builder and the history stand behind `ResetOps`.
pub mod FromStart
use han_hermez_node.Exec.{Exec, pure, gets, modify, ◌>>=◌, ◌>>◌}
use han_hermez_node.Coordinator.Pipeline.{PipelineStats, Pipeline, PipelineOps, calls}
use han_hermez_node.Prelude.{ℕ, Bool, true, not, Option, none, some, ◌==◌, if◌then◌else◌}

-- `CheckpointExists` and `Reset` of both, the state root of a batch in the history, none where there are
-- no rows, and the root of the batch builder's tree.
pub record ResetOps (W : Type 0) : Type 0 where
  pub selector_checkpoint_exists : ℕ → Exec W Bool
  pub selector_reset : ℕ → Bool → Exec W (Unit {0})
  pub builder_checkpoint_exists : ℕ → Exec W Bool
  pub builder_reset : ℕ → Bool → Exec W (Unit {0})
  pub get_state_root : ℕ → Exec W (Option ℕ)
  pub local_root : W → ℕ

-- The state behind a batch
unfoldable pub reset_state : {W : Type 0} → ℕ → PipelineStats → Pipeline W → Pipeline W
reset_state batch_num stats p = record p {
  state = record {
    batch_num = batch_num;
    last_scheduled_l1_batch_block_num = 0;
    last_forge_l1_txs_num = stats.last_forge_l1_txs_num;
    last_slot_forged = none;
  };
  stats = stats;
}

module _ {W : Type 0} (ops : PipelineOps W) (r : ResetOps W) where
  -- A reset from the synchronizer where the roots differ
  unfoldable pub force_reset : ℕ → Option ℕ → Exec (Pipeline W) (Unit {0})
  force_reset batch_num none = pure tt
  force_reset batch_num (some root) = do
    p ← gets (λ p. p)
    if r.local_root p.world == root
        then pure tt
        else (calls ops (r.selector_reset batch_num true)
            >> calls ops (r.builder_reset batch_num true))

  -- `reset`: from the checkpoint with the number if it exists, else from the synchronizer
  unfoldable pub reset_pipeline : ℕ → PipelineStats → Exec (Pipeline W) (Unit {0})
  reset_pipeline batch_num stats = do
    modify (reset_state batch_num stats)
    exists_selector ← calls ops (r.selector_checkpoint_exists batch_num)
    calls ops (r.selector_reset batch_num (not exists_selector))
    exists_builder ← calls ops (r.builder_checkpoint_exists batch_num)
    calls ops (r.builder_reset batch_num (not exists_builder))
    root ← calls ops (r.get_state_root batch_num)
    force_reset batch_num root
