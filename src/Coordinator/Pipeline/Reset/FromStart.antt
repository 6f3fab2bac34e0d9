-- ===== src/Coordinator/Pipeline/Reset/FromStart.antt =====
-- What a pipeline does from its start on (`reset` and the loops of `Start`, coordinator/pipeline.go).
use han_hermez_node.Exec.{Exec}
use han_hermez_node.Exec.Ensures.{Ensures}
use han_hermez_node.Coordinator.Pipeline.{PipelineStats, Pipeline, PipelineOps}
use han_hermez_node.Coordinator.Pipeline.Reset.{ResetOps, reset_pipeline}
use han_hermez_node.Coordinator.Pipeline.Loops.{Loops}
use han_hermez_node.Prelude.{ℕ, ◌≡◌, none, List}

module _ {W : Type 0} (ops : PipelineOps W) (n : ℕ) (stats : PipelineStats) (pool : List ℕ) where
  -- The state and the stats that are set, beside the provers
  abbrev pub Fresh : Pipeline W → Type 0
  Fresh p =
      (p.stats ≡ stats)
      × (p.provers_pool ≡ pool)
      × (p.state ≡ record {
        batch_num = n;
        last_scheduled_l1_batch_block_num = 0;
        last_forge_l1_txs_num = stats.last_forge_l1_txs_num;
        last_slot_forged = none;
      })

module _ {W : Type 0} (ops : PipelineOps W) (r : ResetOps W) (n : ℕ) (stats : PipelineStats) where
  -- The pipeline that `Start` leaves to its loops
  abbrev after_reset : Pipeline W → Pipeline W
  after_reset p = (reset_pipeline ops r n stats p).1
