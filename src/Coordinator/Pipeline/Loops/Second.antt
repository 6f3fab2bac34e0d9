-- ===== src/Coordinator/Pipeline/Loops/Second.antt =====
-- What the loops of the pipeline (coordinator/pipeline.go) do not do in a run: make a second batch in a
-- slot under `ForgeOncePerSlotIfTxs`, or a second L1 batch before the synchronizer has seen the first.
use han_hermez_node.Exec.Ensures.{Outcome}
use han_hermez_node.Coordinator.Pipeline.{
  PipelineCfg, PipelineStats, Pipeline, BatchInfo, PipelineOps, should_l1_l2_batch, forge_batch,
}
use han_hermez_node.Coordinator.Pipeline.Policy.{forge_batch-Result}
use han_hermez_node.Coordinator.Pipeline.Loops.{
  Loops, handle_forge_batch, revert_pool_changes, is_benign, forge_outcome, forge_next, forge_tick,
  step, Event, forge, take_next, proof, sync, run,
}
use han_hermez_node.Coordinator.Pipeline.Loops.Carried.{Ok, Err, handle_forge_batch-Ok}
use han_hermez_node.Coordinator.Pipeline.Loops.Attempts.{
  Done, Ahead, Same, First, first_weaker, forge_batch-Done, forge_batch-Ahead, forge_batch-First,
}
use han_hermez_node.Coordinator.Pipeline.Loops.Once.{
  l1_batches-snoc, l1_on_way, Fits, Keep, run-Keep,
}
use han_hermez_node.Prelude.{
  ℕ, ◌+◌, ◌≤◌, ◌<◌, ◌≡◌, refl, ap, ◌∙◌, ◌≢◌, inl, inr, Bool, true, List, [], ◌∷◌, arith, ◌==◌,
  Bool-cases, All, Error, Result, ok, err,
}

module _ {W : Type 0} (ops : PipelineOps W) where
  module _ (schedule_deadline : ℕ → ℕ) where
    abbrev kind_of : Pipeline W → Bool
    kind_of p = should_l1_l2_batch schedule_deadline p.stats p.state

    -- A failed attempt moves neither the batch number nor the batches on the way.
    failed_outcome :
        (l : Loops W) (done n : ℕ) (x : Error) (q : Pipeline W)
        → ((forge_outcome ops done n l (err x, q)).pipeline.state.batch_num ≡ q.state.batch_num)
          × (l1_on_way (forge_outcome ops done n l (err x, q)) ≡ l1_on_way l)
    unfolding forge_outcome revert_pool_changes
    failed_outcome l done n x q = elim (Bool-cases (is_benign ops x)) [
      | inl e ↦ (rw e refl, rw e refl)
      | inr e ↦ (rw e refl, rw e refl)
    ]

    module _ (l : Loops W) (done : ℕ) where
      outcome-Done :
          (n : ℕ) (r : Result BatchInfo × Pipeline W)
          → Outcome
              (Ok ops (First l.pipeline) (Same l.pipeline) (first_weaker l.pipeline))
              (Err ops (First l.pipeline) (Same l.pipeline) (first_weaker l.pipeline))
              r
          → l.pipeline.cfg.forge_once_per_slot_if_txs ≡ true
          → let p' = (forge_outcome ops done n l r).pipeline in
            p'.state.batch_num ≢ l.pipeline.state.batch_num
            → Done l.pipeline.stats.slot_num p'.state.batch_num p'.cfg p'.stats p'.state
      unfolding forge_outcome
      outcome-Done n (ok info, q) h once moved = (
        ap (λ (x : PipelineCfg). x.forge_once_per_slot_if_txs) h.1 ∙ once,
        ap (λ (x : PipelineStats). x.slot_num) h.2,
        h.3,
        refl,
      )
      outcome-Done n (err x, q) h once moved = absurd (moved ((failed_outcome l done n x q).0 ∙ h))

      outcome-Ahead :
          (n : ℕ) (r : Result BatchInfo × Pipeline W)
          → Outcome
              (Ok ops (First l.pipeline) (Same l.pipeline) (first_weaker l.pipeline))
              (Err ops (First l.pipeline) (Same l.pipeline) (first_weaker l.pipeline))
              r
          → l1_on_way l < l1_on_way (forge_outcome ops done n l r)
          → let p' = (forge_outcome ops done n l r).pipeline in
            Ahead l.pipeline.stats.last_forge_l1_txs_num p'.cfg p'.stats p'.state
      unfolding forge_outcome
      outcome-Ahead n (ok info, q) h more = elim (Bool-cases info.l1_batch) [
        | inl l1 ↦ (ap (λ (x : PipelineStats). x.last_forge_l1_txs_num) h.2, h.4 l1)
        | inr l2 ↦ absurd (ground (arith, more, l2, l1_batches-snoc l.sent info))
      ]
      outcome-Ahead n (err x, q) h more =
          absurd (omega (arith, more, (failed_outcome l done n x q).1))

    -- A tick leaves the loops as they are, or is the outcome of an attempt.
    tick_cases :
        (P : Loops W → Type 0) (now done : ℕ) (l : Loops W)
        → P l
        → ((n : ℕ) (r : Result BatchInfo × Pipeline W)
            → Outcome
                (Ok ops (First l.pipeline) (Same l.pipeline) (first_weaker l.pipeline))
                (Err ops (First l.pipeline) (Same l.pipeline) (first_weaker l.pipeline))
                r
            → P (forge_outcome ops done n l r))
        → P (forge_tick ops schedule_deadline now done l)
    unfolding forge_tick forge_next
    tick_cases P now done l same tried = elim (Bool-cases (l.pipeline.err_at_batch_num == 0)) [
      | inl e ↦ rw e (attempt l.pipeline.provers_pool)
      | inr e ↦ rw e same
    ]
      where
        attempt : (pool : List ℕ) → P (forge_next ops schedule_deadline now done l pool)
        attempt [] = same
        attempt (sp ∷ rest) =
            let n : ℕ = l.pipeline.state.batch_num + 1 in
            let p : Pipeline W = record l.pipeline { provers_pool = rest } in
            tried n (handle_forge_batch ops schedule_deadline now n sp p) (
              handle_forge_batch-Ok ops (First p) (Same p) (first_weaker p) schedule_deadline now n
                sp p
                (forge_batch-First ops n p (kind_of p) (forge_batch ops schedule_deadline now n p)
                  (forge_batch-Result ops p now n schedule_deadline)))

    -- The stats that arrive are still of the slot, or have no other L1 batch.
    abbrev pub InSlot : ℕ → Event ops → Type 0
    InSlot slot (sync stats) = stats.slot_num ≡ slot
    InSlot slot _ = Unit {0}

    abbrev pub Unseen : ℕ → Event ops → Type 0
    Unseen seen (sync stats) = stats.last_forge_l1_txs_num ≡ seen
    Unseen seen _ = Unit {0}

    InSlot-Fits :
        (slot n : ℕ) (es : List (Event ops))
        → All (InSlot slot) es
        → All (Fits ops (Done slot n)) es
    InSlot-Fits slot n [] h = tt
    InSlot-Fits slot n (forge a b ∷ es) h = (tt, InSlot-Fits slot n es h.1)
    InSlot-Fits slot n (take_next ∷ es) h = (tt, InSlot-Fits slot n es h.1)
    InSlot-Fits slot n (proof ∷ es) h = (tt, InSlot-Fits slot n es h.1)
    InSlot-Fits slot n (sync stats ∷ es) h =
        (λ p v. (v.0, h.0, v.2, v.3), InSlot-Fits slot n es h.1)

    Unseen-Fits :
        (seen : ℕ) (es : List (Event ops)) → All (Unseen seen) es → All (Fits ops (Ahead seen)) es
    Unseen-Fits seen [] h = tt
    Unseen-Fits seen (forge a b ∷ es) h = (tt, Unseen-Fits seen es h.1)
    Unseen-Fits seen (take_next ∷ es) h = (tt, Unseen-Fits seen es h.1)
    Unseen-Fits seen (proof ∷ es) h = (tt, Unseen-Fits seen es h.1)
    Unseen-Fits seen (sync stats ∷ es) h = (λ p v. (h.0, v.1), Unseen-Fits seen es h.1)

    -- Under `ForgeOncePerSlotIfTxs`, from any state of the two loops: once a tick of the forging loop has
    -- made a batch, which moves the batch number, the batch number stays through every later run of
    -- events in which the synchronizer reports the same slot, so no other batch is made in the slot,
    -- whatever the databases, the selector, the batch builder and the proof servers return.
    pub run-once :
        (now done : ℕ) (l : Loops W) (es : List (Event ops))
        → l.pipeline.cfg.forge_once_per_slot_if_txs ≡ true
        → (forge_tick ops schedule_deadline now done l).pipeline.state.batch_num
          ≢ l.pipeline.state.batch_num
        → All (InSlot l.pipeline.stats.slot_num) es
        → (run ops schedule_deadline
            (forge_tick ops schedule_deadline now done l)
            es).pipeline.state.batch_num
          ≡ (forge_tick ops schedule_deadline now done l).pipeline.state.batch_num
    run-once now done l es once moved still =
        let l' : Loops W = forge_tick ops schedule_deadline now done l in
        let slot : ℕ = l.pipeline.stats.slot_num in
        let n : ℕ = l'.pipeline.state.batch_num in
        let v : Done slot n l'.pipeline.cfg l'.pipeline.stats l'.pipeline.state =
          tick_cases
            (λ t.
              t.pipeline.state.batch_num ≢ l.pipeline.state.batch_num
              → Done slot t.pipeline.state.batch_num t.pipeline.cfg t.pipeline.stats
                  t.pipeline.state)
            now done l (λ no. absurd (no refl)) (λ k r h. outcome-Done l done k r h once) moved in
        (run-Keep ops (Done slot n) schedule_deadline
          (λ now' k p d.
            forge_batch-Done ops slot n k p d (kind_of p)
              (forge_batch ops schedule_deadline now' k p)
              (forge_batch-Result ops p now' k schedule_deadline))
          l' es (InSlot-Fits slot n es still) v).0.3

    run-Ahead :
        (seen : ℕ) (l : Loops W) (es : List (Event ops))
        → All (Unseen seen) es
        → Ahead seen l.pipeline.cfg l.pipeline.stats l.pipeline.state
        → Keep ops (Ahead seen) l (run ops schedule_deadline l es)
    run-Ahead seen l es unseen v =
        run-Keep ops (Ahead seen) schedule_deadline
          (λ now k p d.
            forge_batch-Ahead ops seen k p d (kind_of p) (forge_batch ops schedule_deadline now k p)
              (forge_batch-Result ops p now k schedule_deadline))
          l es (Unseen-Fits seen es unseen) v

    -- From any state of the two loops: once a tick of the forging loop has put an L1 batch on its way, no
    -- tick of it at any point of a later run of events, behind L2 batches, proofs and errors, puts another
    -- on its way, while the synchronizer reports the same number of the last L1 batch as before. The L1
    -- batches between the loops are never more than behind the first tick, and the pipeline's own number
    -- stays the one behind the reported one.
    pub run-one_l1 :
        (now done : ℕ) (l : Loops W) (es : List (Event ops)) (later later_done : ℕ)
        → l1_on_way l < l1_on_way (forge_tick ops schedule_deadline now done l)
        → All (Unseen l.pipeline.stats.last_forge_l1_txs_num) es
        → let l' = forge_tick ops schedule_deadline now done l in
          let after = run ops schedule_deadline l' es in
          (l1_on_way (forge_tick ops schedule_deadline later later_done after) ≤ l1_on_way after)
          × (l1_on_way after ≤ l1_on_way l')
          × (after.pipeline.state.last_forge_l1_txs_num
              ≡ l.pipeline.stats.last_forge_l1_txs_num + 1)
    unfolding run step
    run-one_l1 now done l es later later_done more unseen =
        let l' : Loops W = forge_tick ops schedule_deadline now done l in
        let seen : ℕ = l.pipeline.stats.last_forge_l1_txs_num in
        let v : Ahead seen l'.pipeline.cfg l'.pipeline.stats l'.pipeline.state =
          tick_cases
            (λ t.
              l1_on_way l < l1_on_way t
              → Ahead seen t.pipeline.cfg t.pipeline.stats t.pipeline.state)
            now done l (λ no. absurd (omega (arith, no))) (λ k r h. outcome-Ahead l done k r h)
            more in
        let k = run-Ahead seen l' es unseen v in
        let m =
          run-Ahead seen (run ops schedule_deadline l' es) (forge later later_done ∷ []) (tt, tt)
            k.0 in
        (m.1, k.1, k.0.1)
