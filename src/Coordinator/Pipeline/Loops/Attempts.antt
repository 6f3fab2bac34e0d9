-- ===== src/Coordinator/Pipeline/Loops/Attempts.antt =====
-- What an attempt of `forgeBatch` (coordinator/pipeline.go) does to what the loops carry: the mark of the
-- slot, the number of the last L1 batch and the batch number.
use han_hermez_node.Exec.Ensures.{Outcome}
use han_hermez_node.Coordinator.Pipeline.{
  PipelineCfg, PipelineStats, PipelineState, Pipeline, BatchInfo, PipelineOps, slot_committed,
  count_l1_batch,
}
use han_hermez_node.Coordinator.Pipeline.Batch.{ResultOf, Failed}
use han_hermez_node.Coordinator.Pipeline.Loops.Carried.{View, Err, Tried}
use han_hermez_node.Coordinator.Pipeline.Loops.Once.{Only, only_weaker}
use han_hermez_node.Prelude.{
  ℕ, ◌+◌, ◌≡◌, refl, sym, ap, ◌∙◌, ◌≢◌, inl, inr, Bool, true, false, Option, none, some, arith,
  if◌then◌else◌, Result, ok, err,
}

committed_of :
    (stats : PipelineStats) (state : PipelineState)
    → state.last_slot_forged ≡ some stats.slot_num
    → slot_committed stats state ≢ false
unfolding slot_committed
committed_of stats state marked free = ground (arith, marked, free)

-- A slot with its batch, under the configuration for one batch in each
abbrev pub Done : (slot batch_num : ℕ) → View
Done slot batch_num c s t =
    (c.forge_once_per_slot_if_txs ≡ true)
    × (s.slot_num ≡ slot)
    × (t.last_slot_forged ≡ some slot)
    × (t.batch_num ≡ batch_num)

-- One more L1 batch than the synchronizer has seen
abbrev pub Ahead : ℕ → View
Ahead seen c s t = (s.last_forge_l1_txs_num ≡ seen) × (t.last_forge_l1_txs_num ≡ seen + 1)

-- What a tick that makes a batch does to the state, and that one that makes none keeps the number
abbrev pub Same : {W : Type 0} → Pipeline W → View
Same p c s t = t.batch_num ≡ p.state.batch_num

abbrev pub First : {W : Type 0} → Pipeline W → Bool → View
First p b c s t =
    (t.batch_num ≡ p.state.batch_num)
    × (c ≡ p.cfg)
    × (s ≡ p.stats)
    × (t.last_slot_forged ≡ some p.stats.slot_num)
    × (b ≡ true → t.last_forge_l1_txs_num ≡ p.stats.last_forge_l1_txs_num + 1)

abbrev pub first_weaker :
    {W : Type 0} (p : Pipeline W) (b : Bool) (c : _) (s : _) (t : _)
    → First p b c s t
    → Same p c s t
first_weaker p b c s t h = h.0

module _ {W : Type 0} (ops : PipelineOps W) where
  count_l1_batch-slot :
      (b : Bool) (p : Pipeline W)
      → ((count_l1_batch ops b p).state.last_slot_forged ≡ p.state.last_slot_forged)
        × ((count_l1_batch ops b p).state.batch_num ≡ p.state.batch_num)
  unfolding count_l1_batch
  count_l1_batch-slot true p = (refl, refl)
  count_l1_batch-slot false p = (refl, refl)

  module _ (slot batch_num n : ℕ) (p : Pipeline W)
      (v : Done slot batch_num p.cfg p.stats p.state) where
    Done-kept :
        (q : Pipeline W)
        → q.cfg ≡ p.cfg
        → q.stats ≡ p.stats
        → q.state.last_slot_forged ≡ p.state.last_slot_forged
        → q.state.batch_num ≡ p.state.batch_num
        → Done slot batch_num q.cfg q.stats q.state
    Done-kept q c s t b = (
      ap (λ (x : PipelineCfg). x.forge_once_per_slot_if_txs) c ∙ v.0,
      ap (λ (x : PipelineStats). x.slot_num) s ∙ v.1,
      t ∙ v.2,
      b ∙ v.3,
    )

    pub forge_batch-Done :
        (kind : Bool) (r : Result (Option BatchInfo) × Pipeline W)
        → Outcome (ResultOf n kind p) (Failed ops p kind) r
        → Outcome
            (Tried ops
              (Only ops (Done slot batch_num))
              (Done slot batch_num)
              (only_weaker ops (Done slot batch_num)))
            (Err ops
              (Only ops (Done slot batch_num))
              (Done slot batch_num)
              (only_weaker ops (Done slot batch_num)))
            r
    forge_batch-Done kind (ok none, q) h =
        Done-kept q h.0.cfg_same h.0.stats_same (ap (λ (t : PipelineState). t.last_slot_forged) h.1)
          h.0.batch_same
    forge_batch-Done kind (ok (some info), q) h =
        absurd (committed_of p.stats p.state (v.2 ∙ ap some (sym v.1)) (h.allowed v.0))
    forge_batch-Done kind (err x, q) (inl h) =
        Done-kept q h.0.cfg_same h.0.stats_same (ap (λ (t : PipelineState). t.last_slot_forged) h.1)
          h.0.batch_same
    forge_batch-Done kind (err x, q) (inr h) =
        Done-kept q h.1.0.cfg_same h.1.0.stats_same
          (ap (λ (t : PipelineState). t.last_slot_forged) h.1.1 ∙ (count_l1_batch-slot kind p).0)
          h.1.0.batch_same

  module _ (seen n : ℕ) (p : Pipeline W) (v : Ahead seen p.cfg p.stats p.state) where
    Ahead-kept :
        (q : Pipeline W)
        → q.stats ≡ p.stats
        → q.state.last_forge_l1_txs_num ≡ p.state.last_forge_l1_txs_num
        → Ahead seen q.cfg q.stats q.state
    Ahead-kept q s t = (ap (λ (x : PipelineStats). x.last_forge_l1_txs_num) s ∙ v.0, t ∙ v.1)

    pub forge_batch-Ahead :
        (kind : Bool) (r : Result (Option BatchInfo) × Pipeline W)
        → Outcome (ResultOf n kind p) (Failed ops p kind) r
        → Outcome
            (Tried ops (Only ops (Ahead seen)) (Ahead seen) (only_weaker ops (Ahead seen)))
            (Err ops (Only ops (Ahead seen)) (Ahead seen) (only_weaker ops (Ahead seen)))
            r
    unfolding count_l1_batch
    forge_batch-Ahead kind (ok none, q) h =
        Ahead-kept q h.0.stats_same (ap (λ (t : PipelineState). t.last_forge_l1_txs_num) h.1)
    forge_batch-Ahead true (ok (some info), q) h = absurd (omega (arith, v.0, v.1, h.synced refl))
    forge_batch-Ahead false (ok (some info), q) h =
        let same = Ahead-kept q h.frame.stats_same (omega (arith, h.counted)) in (λ _. same, h.kind)
    forge_batch-Ahead kind (err x, q) (inl h) =
        Ahead-kept q h.0.stats_same (ap (λ (t : PipelineState). t.last_forge_l1_txs_num) h.1)
    forge_batch-Ahead true (err x, q) (inr h) = absurd (omega (arith, v.0, v.1, h.0 refl))
    forge_batch-Ahead false (err x, q) (inr h) =
        Ahead-kept q h.1.0.stats_same (ap (λ (t : PipelineState). t.last_forge_l1_txs_num) h.1.1)

  pub forge_batch-First :
      (n : ℕ) (p : Pipeline W) (kind : Bool) (r : Result (Option BatchInfo) × Pipeline W)
      → Outcome (ResultOf n kind p) (Failed ops p kind) r
      → Outcome
          (Tried ops (First p) (Same p) (first_weaker p))
          (Err ops (First p) (Same p) (first_weaker p))
          r
  forge_batch-First n p kind (ok none, q) h = h.0.batch_same
  forge_batch-First n p kind (ok (some info), q) h = (
    h.frame.batch_same,
    h.frame.cfg_same,
    h.frame.stats_same,
    h.committed,
    λ l1. first_l1 (sym h.kind ∙ l1) h.synced h.counted,
  )
    where
      first_l1 :
          kind ≡ true
          → (kind ≡ true → p.state.last_forge_l1_txs_num ≡ p.stats.last_forge_l1_txs_num)
          → q.state.last_forge_l1_txs_num ≡ p.state.last_forge_l1_txs_num + (if kind then 1 else 0)
          → q.state.last_forge_l1_txs_num ≡ p.stats.last_forge_l1_txs_num + 1
      first_l1 is synced counted = ground (arith, is, synced is, counted)
  forge_batch-First n p kind (err x, q) (inl h) = h.0.batch_same
  forge_batch-First n p kind (err x, q) (inr h) = h.1.0.batch_same
