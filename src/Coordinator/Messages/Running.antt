-- ===== src/Coordinator/Messages/Running.antt =====
-- When the pipeline runs (`syncStats`, coordinator/coordinator.go).
use han_hermez_node.Exec.{Exec, gets, modify, ◌>>=◌}
use han_hermez_node.Exec.Ensures.{
  Ensures, Ensures-pure, Ensures-gets, Ensures-if, Ensures-bind, Ensures-modify, Ensures-zoom,
  Ensures-error, Outcome,
}
use han_hermez_node.Coordinator.Purger.{Purger, purge_maybe, invalidate_maybe}
use han_hermez_node.Coordinator.Slots.{relative_block, at_least}
use han_hermez_node.Coordinator.Messages.{
  FromBatch, Coordinator, CoordinatorOps, calls, can_forge_at, can_forge_ahead, from_batch,
  count_pipeline, stop_running, start_from, drop_failed, start_or_drop, start_pipeline, set_purger,
  run_idle, purge_idle, start_or_stop, purge_if, sync_stats,
}
use han_hermez_node.Prelude.{
  ◌≢◌, ℕ, ◌+◌, ◌≡◌, refl, sym, ◌∙◌, ◌⊎◌, inl, inr, Bool, true, false, Option, none, some, arith,
  ltb, if◌then◌else◌, Result, ok, err,
}

module _ {W : Type 0} (ops : CoordinatorOps W) (c : Coordinator W) where
  -- The slot is old enough to start a pipeline.
  abbrev pub Late : Type 0
  Late =
      at_least (relative_block c.consts (c.stats.eth_block + 1)) c.cfg.start_slot_blocks_delay
      ≡ true

  -- The address can forge in the next block and, where blocks ahead are configured, as many blocks
  -- behind the next one.
  abbrev pub Forges : Type 0
  Forges =
      (can_forge_at ops c (c.stats.eth_block + 1) ≡ true)
      × (c.cfg.schedule_batch_blocks_ahead_check ≢ 0
          → can_forge_at ops c (c.stats.eth_block + 1 + c.cfg.schedule_batch_blocks_ahead_check)
            ≡ true)

  can_forge_ahead-Forges : can_forge_ahead ops c ≡ true → Forges
  unfolding can_forge_ahead
  can_forge_ahead-Forges e = (ground (arith, e), λ ahead. ground (arith, e, ahead))

  -- No pipeline runs; or we can forge, and it ran before, or it was started late enough in the slot
  -- behind the batch to start from.
  abbrev pub RunsWell : Coordinator W → Type 0
  RunsWell s =
      (s.pipeline ≡ none)
      ⊎ (Forges
          × ((s.pipeline ≡ c.pipeline)
              ⊎ ((c.pipeline ≡ none) × ((s.pipeline_from_batch ≡ from_batch ops c) × Late))))

  call_keeps : {A : Type 0} (m : Exec W A) → Ensures RunsWell (calls ops m) (λ _. RunsWell) RunsWell
  call_keeps m = Ensures-zoom (λ t. t.world) (λ w t. record t { world = w }) m (λ s t h. h)

  idle_call :
      {A : Type 0} (m : Exec W A)
      → Ensures (λ s. s.pipeline ≡ none) (calls ops m) (λ _ s. s.pipeline ≡ none) RunsWell
  idle_call m =
      Ensures-error (λ s h. inl h)
        (Ensures-zoom (λ t. t.world) (λ w t. record t { world = w }) m (λ s t h. h))

  drop_failed-RunsWell :
      (r : Result (Unit {0}) × Coordinator W)
      → Outcome (λ _. RunsWell) RunsWell r
      → Outcome (λ _. RunsWell) RunsWell (drop_failed ops r)
  unfolding drop_failed
  drop_failed-RunsWell (ok u, s) h = h
  drop_failed-RunsWell (err e, s) h = inl refl

  start_or_drop-RunsWell : (n : ℕ) → Ensures RunsWell (start_or_drop ops n) (λ _. RunsWell) RunsWell
  unfolding start_or_drop
  start_or_drop-RunsWell n = record {
    at = λ s h.
        drop_failed-RunsWell (calls ops (ops.start_pipeline n) s)
          ((call_keeps (ops.start_pipeline n)).at s h);
  }

  start_pipeline-RunsWell :
      c.pipeline ≡ none
      → can_forge_ahead ops c ≡ true
      → Late
      → Ensures
          (λ s. s.pipeline ≡ none)
          (start_pipeline ops (from_batch ops c))
          (λ _. RunsWell)
          RunsWell
  unfolding start_pipeline
  start_pipeline-RunsWell idle may late =
      let from : FromBatch = from_batch ops c in
      Ensures-bind (calls ops (ops.reorg from.batch_num)) _ (idle_call _) λ _.
        Ensures-bind (modify (count_pipeline ops)) _
          (Ensures-modify (count_pipeline ops) (λ s h. h))
          λ _. Ensures-bind (gets (λ t. t)) _ (Ensures-gets (λ t. t) (λ s h. h)) λ t.
            Ensures-bind (calls ops (ops.new_pipeline t.pipeline_num)) _ (idle_call _) λ _.
              Ensures-bind (modify (start_from ops from)) _
                (Ensures-modify (start_from ops from)
                  (λ s h. inr (can_forge_ahead-Forges may, inr (idle, (refl, late)))))
                λ _. start_or_drop-RunsWell from.batch_num

  start_or_stop-RunsWell :
      (pipeline : Option ℕ) (may : Bool)
      → c.pipeline ≡ pipeline
      → can_forge_ahead ops c ≡ may
      → Ensures
          (λ s. s.pipeline ≡ pipeline)
          (start_or_stop ops c pipeline may)
          (λ _. RunsWell)
          RunsWell
  unfolding start_or_stop
  start_or_stop-RunsWell none true e m =
      Ensures-if
        (at_least (relative_block c.consts (c.stats.eth_block + 1)) c.cfg.start_slot_blocks_delay) _
        _ (λ late. start_pipeline-RunsWell e m late) (λ _. Ensures-pure tt (λ s h. inl h))
  start_or_stop-RunsWell none false e m = Ensures-pure tt (λ s h. inl h)
  start_or_stop-RunsWell (some num) true e m =
      Ensures-pure tt (λ s h. inr (can_forge_ahead-Forges m, inl (h ∙ sym e)))
  start_or_stop-RunsWell (some num) false e m = Ensures-modify (stop_running ops) (λ s h. inl refl)

  run_idle-RunsWell :
      (m : Exec W (Unit {0})) (t : Bool × Purger)
      → Ensures RunsWell (run_idle ops m t) (λ _. RunsWell) RunsWell
  unfolding run_idle
  run_idle-RunsWell m (may, purger) =
      Ensures-bind (modify (set_purger ops purger)) _
        (Ensures-modify (set_purger ops purger) (λ s h. h))
        λ _. Ensures-if may _ _ (λ _. call_keeps m) (λ _. Ensures-pure tt (λ s h. h))

  purge_if-RunsWell :
      (t : Coordinator W) (pipeline : Option ℕ)
      → Ensures RunsWell (purge_if ops t pipeline) (λ _. RunsWell) RunsWell
  unfolding purge_if purge_idle
  purge_if-RunsWell t (some num) = Ensures-pure tt (λ s h. h)
  purge_if-RunsWell t none =
      let n : ℕ = t.stats.last_batch.batch_num in
      let first : Bool × Purger = invalidate_maybe t.purger t.stats.sync_block n in
      Ensures-bind (run_idle ops (ops.mark_invalid_old_nonces n) first) _
        (run_idle-RunsWell (ops.mark_invalid_old_nonces n) first)
        λ _.
          Ensures-bind (gets (λ t. t)) _ (Ensures-gets (λ t. t) (λ s h. h))
            λ c'. run_idle-RunsWell (ops.purge n) (purge_maybe c'.purger t.stats.sync_block n)

  from_batch_num : (from_batch ops c).batch_num ≡ (
      if ltb c.stats.last_batch.batch_num c.last_non_failed_batch_num
      then c.last_non_failed_batch_num
      else c.stats.last_batch.batch_num)
  unfolding from_batch
  from_batch_num = ground arith

  -- `syncStats`, whether it returns an error or not: afterwards no pipeline runs, or we can forge in the
  -- next block and, where `ScheduleBatchBlocksAheadCheck` is not 0, in the block that lies that many
  -- blocks behind the next one, which is one block further than the documentation of the configuration
  -- says. If none ran before, the one that runs was started not before the configured delay in the slot,
  -- from the batch behind the last synced one or the last one that did not fail, the later of the two.
  pub sync_stats-RunsWell :
      Outcome (λ _. RunsWell) RunsWell (sync_stats ops c)
      × ((from_batch ops c).batch_num ≡ (
          if ltb c.stats.last_batch.batch_num c.last_non_failed_batch_num
          then c.last_non_failed_batch_num
          else c.stats.last_batch.batch_num))
  unfolding sync_stats
  sync_stats-RunsWell =
      let rest : Ensures RunsWell (gets (λ t. t) >>= λ t. purge_if ops t t.pipeline) (λ _. RunsWell)
          RunsWell =
        Ensures-bind (gets (λ t. t)) _ (Ensures-gets (λ t. t) (λ s h. h))
          λ t. purge_if-RunsWell t t.pipeline in
      let both =
        Ensures-bind (start_or_stop ops c c.pipeline (can_forge_ahead ops c)) _
          (start_or_stop-RunsWell c.pipeline (can_forge_ahead ops c) refl refl) λ _. rest in
      (both.at c refl, from_batch_num)
