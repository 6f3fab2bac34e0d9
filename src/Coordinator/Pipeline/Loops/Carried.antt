-- ===== src/Coordinator/Pipeline/Loops/Carried.antt =====
-- What a tick of the forging loop (coordinator/pipeline.go) does to the configuration, the stats and the
-- state of the pipeline, where `forgeBatch` is known to do it.
use han_hermez_node.Exec.Ensures.{
  Ensures, Ensures-bind, Ensures-zoom, Ensures-error, Ensures-pure, Outcome,
}
use han_hermez_node.Coordinator.Pipeline.{
  PipelineCfg, PipelineStats, PipelineState, Pipeline, BatchInfo, PipelineOps, calls, forge_batch,
}
use han_hermez_node.Coordinator.Pipeline.Loops.{
  or_skip, with_server_proof, put_back, handle_forge_batch,
}
use han_hermez_node.Prelude.{ℕ, ◌≡◌, refl, sym, subst, Bool, Option, none, some, Result, ok, err}

-- A property of what the policies read, and one of a kind of batch beside it
abbrev pub View : Type 1
View = PipelineCfg → PipelineStats → PipelineState → Type 0

module _ {W : Type 0} (ops : PipelineOps W) (R : Bool → View) (E : View)
    (weaker : (b : Bool) (c : PipelineCfg) (s : PipelineStats) (t : PipelineState)
      → R b c s t
      → E c s t) where
  abbrev pub Ok : BatchInfo → Pipeline W → Type 0
  Ok info p = R info.l1_batch p.cfg p.stats p.state

  abbrev pub Err : Pipeline W → Type 0
  Err p = E p.cfg p.stats p.state

  -- A batch or none
  abbrev pub Tried : Option BatchInfo → Pipeline W → Type 0
  Tried none p = Err p
  Tried (some info) p = Ok info p

  or_skip-Ok : (made : Option BatchInfo) → Ensures (Tried made) (or_skip made) Ok Err
  or_skip-Ok none = record { at = λ s h. h }
  or_skip-Ok (some info) = record { at = λ s h. h }

  put_back-Ok :
      (server_proof : ℕ) (r : Result BatchInfo × Pipeline W)
      → Outcome Ok Err r
      → Outcome Ok Err (put_back ops server_proof r)
  unfolding put_back
  put_back-Ok server_proof (ok info, p) h = h
  put_back-Ok server_proof (err x, p) h = h

  pub handle_forge_batch-Ok :
      (schedule_deadline : ℕ → ℕ) (now n server_proof : ℕ) (p : Pipeline W)
      → Outcome Tried Err (forge_batch ops schedule_deadline now n p)
      → Outcome Ok Err (handle_forge_batch ops schedule_deadline now n server_proof p)
  unfolding handle_forge_batch with_server_proof
  handle_forge_batch-Ok deadline now n server_proof p h =
      let m : Ensures (λ s. s ≡ p) (with_server_proof ops deadline now n server_proof) Ok Err =
        Ensures-bind (forge_batch ops deadline now n) _
          (record {
            at = λ s e.
                subst (λ (t : Pipeline W). Outcome Tried Err (forge_batch ops deadline now n t))
                  (sym e) h;
          })
          λ made. Ensures-bind (or_skip made) _ (or_skip-Ok made) λ info.
            Ensures-bind (calls ops (ops.calculate_proof server_proof)) _
              (Ensures-error (λ s k. weaker info.l1_batch s.cfg s.stats s.state k)
                (Ensures-zoom (λ q. q.world) (λ w q. record q { world = w })
                  (ops.calculate_proof server_proof) (λ s t k. k)))
              λ _. Ensures-pure (record info { server_proof = server_proof }) (λ q k. k) in
      put_back-Ok server_proof (with_server_proof ops deadline now n server_proof p) (m.at p refl)
