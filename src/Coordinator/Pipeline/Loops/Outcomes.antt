-- ===== src/Coordinator/Pipeline/Loops/Outcomes.antt =====
-- What one tick of the loops of the pipeline (coordinator/pipeline.go) leaves of the batch number, the
-- error mark and the provers.
use han_hermez_node.Exec.Ensures.{
  Ensures, Ensures-pure, Ensures-bind, Ensures-given, Ensures-zoom, Outcome,
}
use han_hermez_node.Coordinator.Pipeline.{
  Pipeline, BatchInfo, PipelineOps, calls, forge_batch, should_l1_l2_batch,
}
use han_hermez_node.Coordinator.Pipeline.Forging.{Frame, Frame-world}
use han_hermez_node.Coordinator.Pipeline.Batch.{ResultOf, Failed}
use han_hermez_node.Coordinator.Pipeline.Policy.{forge_batch-Result}
use han_hermez_node.Coordinator.Pipeline.Loops.{
  or_skip, with_server_proof, put_back, handle_forge_batch, revert_pool_changes,
}
use han_hermez_node.Prelude.{
  inl, inr, ℕ, ◌≡◌, refl, sym, ap, subst, Bool, Option, none, some, List, [], ◌∷◌, ◌++◌, Result, ok,
  err,
}

module _ {W : Type 0} (ops : PipelineOps W) where
  -- What the loops read of a pipeline
  pub record Kept (p p' : Pipeline W) : Type 0 where
    pub err_same : p'.err_at_batch_num ≡ p.err_at_batch_num
    pub pool_same : p'.provers_pool ≡ p.provers_pool
    pub batch_same : p'.state.batch_num ≡ p.state.batch_num

  pub revert-Kept : (n : ℕ) (p : Pipeline W) → Kept p (revert_pool_changes ops n p)
  unfolding revert_pool_changes
  revert-Kept n p = record { err_same = refl; pool_same = refl; batch_same = refl }

  module _ (schedule_deadline : ℕ → ℕ) (now n server_proof : ℕ) (p : Pipeline W) where
    abbrev Made : BatchInfo → Pipeline W → Type 0
    Made info p' = Frame p p' × (info.batch_num ≡ n)

    or_skip-Made :
        (kind : Bool) (made : Option BatchInfo)
        → Ensures (ResultOf n kind p made) (or_skip made) Made (Frame p)
    or_skip-Made kind none = record { at = λ s h. h.0 }
    or_skip-Made kind (some info) = record { at = λ s h. (h.frame, h.num) }

    framed :
        (kind : Bool) (t : Result (Option BatchInfo) × Pipeline W)
        → Outcome (ResultOf n kind p) (Failed ops p kind) t
        → Outcome (ResultOf n kind p) (Frame p) t
    framed kind (ok made, q) h = h
    framed kind (err x, q) (inl h) = h.0
    framed kind (err x, q) (inr h) = h.1.0

    with_server_proof-Made :
        Ensures
          (λ s. s ≡ p)
          (with_server_proof ops schedule_deadline now n server_proof)
          Made
          (Frame p)
    unfolding with_server_proof
    with_server_proof-Made =
        let kind : Bool = should_l1_l2_batch schedule_deadline p.stats p.state in
        Ensures-bind (forge_batch ops schedule_deadline now n) _
          (record {
            at = λ s e.
                subst
                  (λ (t : Pipeline W).
                    Outcome (ResultOf n kind p) (Frame p)
                      (forge_batch ops schedule_deadline now n t))
                  (sym e)
                  (framed kind (forge_batch ops schedule_deadline now n p)
                    (forge_batch-Result ops p now n schedule_deadline));
          })
          λ made. Ensures-bind (or_skip made) _ (or_skip-Made kind made) λ info.
            Ensures-given λ num.
              Ensures-bind (calls ops (ops.calculate_proof server_proof)) _
                (Ensures-zoom (λ q. q.world) (λ w q. record q { world = w })
                  (ops.calculate_proof server_proof) (λ s t h. Frame-world p s t h))
                λ _. Ensures-pure (record info { server_proof = server_proof }) (λ q h. (h, num))

    -- After an error the prover is back in the pool, behind the others.
    abbrev pub Returned : Pipeline W → Type 0
    Returned p' =
        (p'.err_at_batch_num ≡ p.err_at_batch_num)
        × (p'.provers_pool ≡ p.provers_pool ++ (server_proof ∷ []))
        × (p'.state.batch_num ≡ p.state.batch_num)

    put_back-Returned :
        (r : Result BatchInfo × Pipeline W)
        → Outcome Made (Frame p) r
        → Outcome
            (λ info p'. Kept p p' × (info.batch_num ≡ n))
            Returned
            (put_back ops server_proof r)
    unfolding put_back
    put_back-Returned (ok info, p') h = (
      record { err_same = h.0.err_same; pool_same = h.0.pool_same; batch_same = h.0.batch_same },
      h.1,
    )
    put_back-Returned (err e, p') h =
        (h.err_same, ap (λ (l : List ℕ). l ++ (server_proof ∷ [])) h.pool_same, h.batch_same)

    pub handle_forge_batch-Returned :
        Outcome
          (λ info p'. Kept p p' × (info.batch_num ≡ n))
          Returned
          (handle_forge_batch ops schedule_deadline now n server_proof p)
    unfolding handle_forge_batch
    handle_forge_batch-Returned =
        put_back-Returned (with_server_proof ops schedule_deadline now n server_proof p)
          (with_server_proof-Made.at p refl)
