-- ===== src/Coordinator/Messages/Reorg.antt =====
-- Which batch the pool goes back to (`handleStopPipeline` and `handleMsgSyncBlock`,
-- coordinator/coordinator.go).
use han_hermez_node.Exec.{Exec, pure, ◌>>◌}
use han_hermez_node.Coordinator.Messages.{
  CoordinatorStats, ScVariablesPtr, Coordinator, CoordinatorOps, SyncedBatch, stop_batch, stop_if,
  handle_stop_pipeline, external_batch_nums, set_stats, drop_external, synced, sync_stats,
  handle_msg_sync_block,
}
use han_hermez_node.Prelude.{
  ℕ, ◌-◌, ◌≤◌, ◌≡◌, refl, ap, ◌∙◌, inl, inr, Bool, false, Option, none, some, List, ◌∷◌, arith,
  ◌==◌, if◌then◌else◌, ok, Result-cases,
}

then_pure : {S : Type 0} (m : Exec S (Unit {0})) (s : S) → ((m >> pure tt) s).1 ≡ (m s).1
then_pure m s = elim (Result-cases (m s).0) [
  | inl (u, e) ↦ ground (arith, e)
  | inr (x, e) ↦ ground (arith, e)
]

module _ {W : Type 0} (ops : CoordinatorOps W) (c : Coordinator W) where
  stop_if-idle :
      (pipeline : Option ℕ) → c.pipeline ≡ pipeline → (stop_if ops pipeline c).pipeline ≡ none
  unfolding stop_if
  stop_if-idle none e = e
  stop_if-idle (some num) e = refl

  -- Stopping, with or without an error: afterwards no pipeline runs, and the pool has gone back to the
  -- batch before the failed one, or to the last synced batch if there is no failed one. Where there is no
  -- error, that batch is also the one that the next pipeline may start behind.
  handle_stop_pipeline-Stops :
      (failed : ℕ)
      → let (r, s) = handle_stop_pipeline ops failed c in
        let back = if failed == 0 then c.stats.last_batch.batch_num else failed - 1 in
        (s.pipeline ≡ none)
        × (s.world ≡ (ops.reorg back (stop_if ops c.pipeline c).world).1)
        × (r ≡ ok tt → s.last_non_failed_batch_num ≡ back)
  unfolding handle_stop_pipeline stop_batch
  handle_stop_pipeline-Stops failed =
      let idle = stop_if-idle c.pipeline refl in
      elim (Result-cases (ops.reorg (stop_batch ops c failed) (stop_if ops c.pipeline c).world).0) [
        | inl (u, e) ↦ (ground (arith, e, idle), ground (arith, e), λ _. ground (arith, e))
        | inr (x, e) ↦ (ground (arith, e, idle), ground (arith, e), λ no. ground (arith, e, no))
      ]

module _ {W : Type 0} (ops : CoordinatorOps W) (c : Coordinator W) where
  drop_idle :
      (first : ℕ) (rest : List ℕ) (s : Coordinator W)
      → (drop_external ops none (first ∷ rest) s).1.world ≡ (ops.reorg (first - 1) s.world).1
  unfolding drop_external
  drop_idle first rest s = refl

  drop_running :
      (num first : ℕ) (rest : List ℕ) (s : Coordinator W)
      → s.pipeline ≡ some num
      → 2 ≤ first
      → (drop_external ops (some num) (first ∷ rest) s).1.world
        ≡ (ops.reorg (first - 2) (ops.stop_pipeline s.world)).1
  unfolding drop_external stop_if
  drop_running num first rest s runs large =
      let back : (if first - 1 == 0 then s.stats.last_batch.batch_num else first - 1 - 1)
          ≡ first - 2 =
        ground (arith, large) in
      (handle_stop_pipeline-Stops ops s (first - 1)).1
      ∙ ap (λ (n : ℕ). (ops.reorg n (stop_if ops s.pipeline s).world).1) back
      ∙ ap (λ (o : Option ℕ). (ops.reorg (first - 2) (stop_if ops o s).world).1) runs

  -- A block with a batch of another coordinator, before the node is synced: without a pipeline the pool
  -- goes back to the batch before the first such batch, but with one it goes back to the batch before
  -- that, since the number of the last valid batch is taken for the number of the failed one.
  pub handle_msg_sync_block-external :
      (stats : CoordinatorStats) (vars : ScVariablesPtr) (batches : List SyncedBatch) (first : ℕ)
      (rest : List ℕ)
      → synced stats ≡ false
      → external_batch_nums ops c.cfg.forger_address batches ≡ first ∷ rest
      → 2 ≤ first
      → let w = ops.set_sync_stats_vars stats vars c.world in
        let after = (handle_msg_sync_block ops stats vars batches c).1.world in
        (c.pipeline ≡ none → after ≡ (ops.reorg (first - 1) w).1)
        × ((num : ℕ)
            → c.pipeline ≡ some num
            → after ≡ (ops.reorg (first - 2) (ops.stop_pipeline w)).1)
  unfolding handle_msg_sync_block set_stats
  handle_msg_sync_block-external stats vars batches first rest unsynced found large =
      let now : Coordinator W = set_stats ops stats vars c in
      let nums : List ℕ = external_batch_nums ops c.cfg.forger_address batches in
      let after : Option ℕ → List ℕ → Bool → W =
        λ o l b. ((drop_external ops o l >> (if b then sync_stats ops else pure tt)) now).1.world in
      let only_drops : (o : Option ℕ)
          → c.pipeline ≡ o
          → after c.pipeline nums (synced stats)
            ≡ (drop_external ops o (first ∷ rest) now).1.world =
        λ o e.
          ap (λ (t : Option ℕ). after t nums (synced stats)) e
          ∙ ap (λ (t : List ℕ). after o t (synced stats)) found
          ∙ ap (after o (first ∷ rest)) unsynced
          ∙ ap (λ (t : Coordinator W). t.world)
              (then_pure (drop_external ops o (first ∷ rest)) now) in
      (
        λ idle. only_drops none idle ∙ drop_idle first rest now,
        λ num runs. only_drops (some num) runs ∙ drop_running num first rest now runs large,
      )
