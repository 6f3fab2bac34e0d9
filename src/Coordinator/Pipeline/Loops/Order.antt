-- ===== src/Coordinator/Pipeline/Loops/Order.antt =====
-- The two loops of the pipeline (coordinator/pipeline.go) together: the transaction manager gets the
-- batches in order and without gaps, and no server proof is lost before an error.
use han_hermez_node.Coordinator.Pipeline.{Pipeline, BatchInfo, PipelineOps, calls}
use han_hermez_node.Coordinator.Pipeline.Loops.{
  Loops, handle_forge_batch, revert_pool_changes, forge_next, forge_tick, take_batch, proof_outcome,
  proof_tick, Event, forge, take_next, proof, sync, step, run, start,
}
use han_hermez_node.Coordinator.Pipeline.Loops.Outcomes.{
  Kept, revert-Kept, handle_forge_batch-Returned,
}
use han_hermez_node.Coordinator.Pipeline.Loops.Invariant.{
  InOrder, awaited, Holds, HoldsOf, Kept-Inv, failed-Inv, Holds-if, forge_outcome-Holds,
}
use han_hermez_node.Prelude.{
  ℕ, ◌+◌, ◌≡◌, refl, Option, none, some, List, [], ◌∷◌, arith, ◌==◌, ==_iff, length, length-append,
  Result, ok, err,
}

module _ {W : Type 0} (ops : PipelineOps W) (begin total : ℕ) where
  forge_next-Holds :
      (schedule_deadline : ℕ → ℕ) (now done : ℕ) (l : Loops W) (pool : List ℕ)
      → Holds ops begin total l
      → l.pipeline.err_at_batch_num ≡ 0
      → l.pipeline.provers_pool ≡ pool
      → Holds ops begin total (forge_next ops schedule_deadline now done l pool)
  unfolding forge_next
  forge_next-Holds deadline now done l [] v fine e = v
  forge_next-Holds deadline now done l (sp ∷ rest) v fine e =
      let n : ℕ = l.pipeline.state.batch_num + 1 in
      let p : Pipeline W = record l.pipeline { provers_pool = rest } in
      forge_outcome-Holds ops begin total l done sp rest
        (handle_forge_batch ops deadline now n sp p) v fine e
        (handle_forge_batch-Returned ops deadline now n sp p)

  forge_tick-Holds :
      (schedule_deadline : ℕ → ℕ) (now done : ℕ) (l : Loops W)
      → Holds ops begin total l
      → Holds ops begin total (forge_tick ops schedule_deadline now done l)
  unfolding forge_tick
  forge_tick-Holds deadline now done l v =
      Holds-if ops begin total (l.pipeline.err_at_batch_num == 0) _ _
        (λ fine.
          forge_next-Holds deadline now done l l.pipeline.provers_pool v
            ((==_iff l.pipeline.err_at_batch_num 0).0 fine) refl)
        (λ _. v)

  take_batch-Holds :
      (l : Loops W) (sent : List BatchInfo) (waiting : Option BatchInfo)
      → Holds ops begin total l
      → HoldsOf ops begin total l.added waiting sent l.pipeline
      → Holds ops begin total (take_batch ops l sent waiting)
  unfolding take_batch
  take_batch-Holds l [] waiting v h = v
  take_batch-Holds l (info ∷ rest) (some other) v h = v
  take_batch-Holds l (info ∷ rest) none v h =
      Holds-if ops begin total (l.pipeline.err_at_batch_num == 0) _ _
        (λ fine.
          let ok_now : l.pipeline.err_at_batch_num ≡ 0 =
            (==_iff l.pipeline.err_at_batch_num 0).0 fine in
          record {
            given = h.given;
            next = (h.coming ok_now).0;
            coming = λ e. (h.coming e).1;
            provers = λ e. omega (arith, h.provers e);
          })
        (λ bad.
          Kept-Inv ops begin total l.added l.waiting rest l.pipeline
            (revert_pool_changes ops l.batch_num l.pipeline)
            (revert-Kept ops l.batch_num l.pipeline)
            (failed-Inv ops begin total l.added l.waiting rest l.pipeline v.given v.next
              (λ e. ground (arith, e, bad))))

  proof_outcome-Holds :
      (l : Loops W) (info : BatchInfo) (r : Result (Unit {0}) × Pipeline W)
      → HoldsOf ops begin total l.added (some info) l.sent l.pipeline
      → Kept ops l.pipeline r.1
      → Holds ops begin total (proof_outcome ops l info r)
  unfolding proof_outcome
  proof_outcome-Holds l info (ok u, p) v k =
      let h = Kept-Inv ops begin total l.added (some info) l.sent l.pipeline p k v in
      record {
        given = (h.next, h.given);
        next = tt;
        coming = h.coming;
        provers =
            λ e. omega (arith, h.provers e, length-append p.provers_pool (info.server_proof ∷ []));
      }
  proof_outcome-Holds l info (err x, p) v k =
      let failed : Pipeline W = record p { err_at_batch_num = info.batch_num } in
      Kept-Inv ops begin total l.added none l.sent failed
        (revert_pool_changes ops l.batch_num failed) (revert-Kept ops l.batch_num failed)
        (failed-Inv ops begin total l.added none l.sent failed v.given tt
          (λ e. omega (arith, v.next, e)))

  proof_tick-Holds :
      (l : Loops W) (waiting : Option BatchInfo)
      → Holds ops begin total l
      → HoldsOf ops begin total l.added waiting l.sent l.pipeline
      → Holds ops begin total (proof_tick ops l waiting)
  unfolding proof_tick
  proof_tick-Holds l none v h = v
  proof_tick-Holds l (some info) v h =
      proof_outcome-Holds l info (calls ops (ops.get_proof info.server_proof) l.pipeline) h
        (record { err_same = refl; pool_same = refl; batch_same = refl })

  step-Holds :
      (schedule_deadline : ℕ → ℕ) (l : Loops W) (e : Event ops)
      → Holds ops begin total l
      → Holds ops begin total (step ops schedule_deadline l e)
  unfolding step
  step-Holds deadline l (forge now done) v = forge_tick-Holds deadline now done l v
  step-Holds deadline l take_next v = take_batch-Holds l l.sent l.waiting v v
  step-Holds deadline l proof v = proof_tick-Holds l l.waiting v v
  step-Holds deadline l (sync stats) v = v

  run-Holds :
      (schedule_deadline : ℕ → ℕ) (l : Loops W) (es : List (Event ops))
      → Holds ops begin total l
      → Holds ops begin total (run ops schedule_deadline l es)
  unfolding run
  run-Holds deadline l [] v = v
  run-Holds deadline l (e ∷ es) v =
      run-Holds deadline (step ops deadline l e) es (step-Holds deadline l e v)

module _ {W : Type 0} (ops : PipelineOps W) where
  -- From the start of the pipeline, whatever the databases, the selector, the batch builder and the proof
  -- servers return and however the two loops and the synchronizer interleave: the transaction manager is
  -- given the batches behind the first one in order, each once and without gaps; and as long as there was
  -- no error, every server proof is in the pool or at work on one of the batches on the way.
  pub run-InOrder :
      (schedule_deadline : ℕ → ℕ) (p : Pipeline W) (es : List (Event ops))
      → let l : Loops W = run ops schedule_deadline (start p) es in
        InOrder p.state.batch_num l.added
        × (l.pipeline.err_at_batch_num ≡ 0
            → length l.pipeline.provers_pool + length l.sent + awaited l.waiting
              ≡ length p.provers_pool)
  unfolding start
  run-InOrder deadline p es =
      let v =
        run-Holds ops p.state.batch_num (length p.provers_pool) deadline (start p) es
          (record { given = tt; next = tt; coming = λ e. refl; provers = λ e. omega arith }) in
      (v.given, v.provers)
