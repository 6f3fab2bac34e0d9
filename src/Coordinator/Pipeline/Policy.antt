-- ===== src/Coordinator/Pipeline/Policy.antt =====
-- The policies of the pipeline (coordinator/pipeline.go): when `forgeBatch` makes a batch, and of which
-- kind.
use han_hermez_node.Exec.{gets}
use han_hermez_node.Exec.Ensures.{
  Ensures, Ensures-pure, Ensures-if, Ensures-bind, Ensures-given, Ensures-error, Outcome,
}
use han_hermez_node.Coordinator.Pipeline.{
  PipelineCfg, PipelineStats, PipelineState, Pipeline, TxSelection, PipelineOps, slot_committed,
  forge_policy_skip_pre_selection, skip_post_selection, should_l1_l2_batch, calls, run_purger,
  pending_txs, select_txs, forge_selected, forge_kind, forge_batch,
}
use han_hermez_node.Coordinator.Pipeline.Forging.{
  Same, Frame-refl, Synced, call_keeps, run_purger-keeps, get_state, select_txs-Selected,
}
use han_hermez_node.Coordinator.Pipeline.Batch.{
  Filled, ResultOf, Chosen, Failed, pending_txs-Filled, forge_selected-Forged,
}
use han_hermez_node.Prelude.{
  ℕ, ◌-◌, ◌≡◌, refl, sym, ◌∙◌, subst, inl, inr, Bool, true, false, none, some, [], arith,
}

post_allows :
    (cfg : PipelineCfg) (stats : PipelineStats) (state : PipelineState) (t now : ℕ) (pending : Bool)
    → skip_post_selection cfg stats state t now pending ≡ false
    → cfg.forge_once_per_slot_if_txs ≡ true
    → (slot_committed stats state ≡ false) × (pending ≡ true)
unfolding skip_post_selection
post_allows cfg stats state t now pending e once = ground (arith, e, once)

module _ {W : Type 0} (ops : PipelineOps W) (p0 : Pipeline W) (now n : ℕ) where
  skip_post_selection-Same :
      (p : Pipeline W) (pending : Bool)
      → Same p0 p
      → skip_post_selection p.cfg p.stats p.state p.last_forge_time now pending
        ≡ skip_post_selection p0.cfg p0.stats p0.state p0.last_forge_time now pending
  skip_post_selection-Same p pending h = rw (h.0.cfg_same, h.0.stats_same, h.1, h.0.time_same)

  chosen :
      (l1_batch : Bool) (s : TxSelection) (pending : Bool)
      → (l1_batch ≡ true → Synced ops p0)
      → (l1_batch ≡ false → s.l1_user_txs ≡ [])
      → (pending ≡ true → Filled l1_batch s)
      → skip_post_selection p0.cfg p0.stats p0.state p0.last_forge_time now pending ≡ false
      → Chosen ops p0 l1_batch s
  chosen l1_batch s pending synced l2_only filled go = (
    synced,
    l2_only,
    λ once.
        let (free, some_txs) =
          post_allows p0.cfg p0.stats p0.state p0.last_forge_time now pending go once in
        (free, filled some_txs),
  )

  forge_kind-Result :
      (l1_batch : Bool)
      → Ensures
          (Same p0)
          (forge_kind ops now n l1_batch)
          (ResultOf n l1_batch p0)
          (Failed ops p0 l1_batch)
  unfolding forge_kind
  forge_kind-Result l1_batch =
      Ensures-bind (select_txs ops l1_batch) _
        (Ensures-error (λ s h. inl h) (select_txs-Selected ops p0 l1_batch))
        λ s. Ensures-given λ known.
          Ensures-bind (pending_txs ops l1_batch s) _
            (Ensures-error (λ s h. inl h) (pending_txs-Filled ops p0 l1_batch s))
            λ pending. Ensures-given λ filled.
              Ensures-bind (gets (λ p. p)) _ (Ensures-error (λ s h. inl h) (get_state ops p0)) λ p.
                Ensures-given λ same.
                  Ensures-if
                    (skip_post_selection p.cfg p.stats p.state p.last_forge_time now pending) _ _
                    (λ _.
                      Ensures-bind (calls ops (ops.selector_reset (n - 1))) _
                        (Ensures-error (λ s h. inl h) (call_keeps ops p0 p0.state _))
                        λ _. Ensures-pure none (λ q h. h))
                    (λ go.
                      Ensures-bind (forge_selected ops n l1_batch s) _
                        (Ensures-error (λ s h. inr (known.0, h))
                          (forge_selected-Forged ops p0 n l1_batch s (
                            chosen l1_batch s pending known.0 known.1 filled
                              (sym (skip_post_selection-Same p pending same) ∙ go))))
                        λ info. Ensures-pure (some info) (λ q h. h))

  should_l1_l2_batch-Same :
      (schedule_deadline : ℕ → ℕ) (p : Pipeline W)
      → Same p0 p
      → should_l1_l2_batch schedule_deadline p.stats p.state
        ≡ should_l1_l2_batch schedule_deadline p0.stats p0.state
  should_l1_l2_batch-Same schedule_deadline p h = rw (h.0.stats_same, h.1)

  pub forge_batch-Result :
      (schedule_deadline : ℕ → ℕ)
      → Outcome
          (ResultOf n (should_l1_l2_batch schedule_deadline p0.stats p0.state) p0)
          (Failed ops p0 (should_l1_l2_batch schedule_deadline p0.stats p0.state))
          (forge_batch ops schedule_deadline now n p0)
  unfolding forge_batch
  forge_batch-Result deadline =
      let kind : Bool = should_l1_l2_batch deadline p0.stats p0.state in
      let m : Ensures (Same p0) (forge_batch ops deadline now n) (ResultOf n kind p0)
          (Failed ops p0 kind) =
        Ensures-bind (run_purger ops n) _ (Ensures-error (λ s h. inl h) (run_purger-keeps ops p0 n))
          λ _. Ensures-bind (gets (λ p. p)) _ (Ensures-error (λ s h. inl h) (get_state ops p0)) λ p.
            Ensures-given λ same.
              Ensures-if
                (forge_policy_skip_pre_selection p.cfg p.stats p.state p.last_forge_time now) _ _
                (λ _. Ensures-pure none (λ q h. h))
                (λ _.
                  subst
                    (λ (b : Bool).
                      Ensures (Same p0) (forge_kind ops now n b) (ResultOf n kind p0)
                        (Failed ops p0 kind))
                    (sym (should_l1_l2_batch-Same deadline p same)) (forge_kind-Result kind)) in
      m.at p0 (Frame-refl p0, refl)
