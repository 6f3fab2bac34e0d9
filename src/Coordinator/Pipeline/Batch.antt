-- ===== src/Coordinator/Pipeline/Batch.antt =====
-- The batch that `forgeBatch` (coordinator/pipeline.go) makes, and when it makes none.
use han_hermez_node.Exec.{modify}
use han_hermez_node.Exec.Ensures.{
  Ensures, Ensures-pure, Ensures-if, Ensures-after, Ensures-modify, Ensures-bind,
}
use han_hermez_node.Common.Tx.{PoolL2Tx}
use han_hermez_node.Coordinator.Pipeline.{
  PipelineStats, PipelineState, Pipeline, BatchInfo, TxSelection, PipelineOps, slot_committed,
  is_empty, pool_l2_txs_to_l2_txs, calls, pending_txs, count_l1_batch, commit_slot, forge_selected,
}
use han_hermez_node.Coordinator.Pipeline.Forging.{Frame, At, Same, Synced, call_keeps}
use han_hermez_node.Prelude.{
  ℕ, ◌+◌, ◌≡◌, refl, sym, ap, ◌∙◌, subst, ◌⊎◌, inl, inr, Bool, true, false, not, ◌&&◌, Option, none,
  some, List, [], ◌∷◌, arith, ◌==◌, if◌then◌else◌,
}

-- A selection with a transaction, or a batch that can advance the queue of L1 transactions
abbrev pub Filled : Bool → TxSelection → Type 0
Filled l1_batch s =
    ((is_empty s.l1_user_txs && (is_empty s.l1_coord_txs && is_empty s.pool_l2_txs)) ≡ false)
    ⊎ (l1_batch ≡ true)

is_empty-pool_l2_txs_to_l2_txs :
    (txs : List PoolL2Tx) → is_empty (pool_l2_txs_to_l2_txs txs) ≡ is_empty txs
is_empty-pool_l2_txs_to_l2_txs [] = refl
is_empty-pool_l2_txs_to_l2_txs (tx ∷ txs) = refl

Filled-info :
    (l1_batch : Bool) (s : TxSelection)
    → Filled l1_batch s
    → ((is_empty s.l1_user_txs
          && (is_empty s.l1_coord_txs && is_empty (pool_l2_txs_to_l2_txs s.pool_l2_txs)))
        ≡ false)
      ⊎ (l1_batch ≡ true)
Filled-info l1_batch s h = rw (is_empty-pool_l2_txs_to_l2_txs s.pool_l2_txs) h

module _ {W : Type 0} where
  -- A batch of a kind that was made from a pipeline, and the pipeline after it.
  pub record Forged (n : ℕ) (l1_batch : Bool) (p0 : Pipeline W) (info : BatchInfo) (p : Pipeline W)
      : Type 0 where
    pub frame : Frame p0 p
    pub num : info.batch_num ≡ n
    pub kind : info.l1_batch ≡ l1_batch
    pub synced : l1_batch ≡ true → p0.state.last_forge_l1_txs_num ≡ p0.stats.last_forge_l1_txs_num
    pub l2_only : l1_batch ≡ false → info.l1_user_txs ≡ []
    pub counted :
        p.state.last_forge_l1_txs_num ≡ p0.state.last_forge_l1_txs_num + (if l1_batch then 1 else 0)
    pub committed : p.state.last_slot_forged ≡ some p0.stats.slot_num
    pub allowed :
        p0.cfg.forge_once_per_slot_if_txs ≡ true → slot_committed p0.stats p0.state ≡ false
    pub filled :
        p0.cfg.forge_once_per_slot_if_txs ≡ true
        → ((is_empty info.l1_user_txs && (is_empty info.l1_coord_txs && is_empty info.l2_txs))
            ≡ false)
          ⊎ (l1_batch ≡ true)

  -- Either no batch and the state as it was, or a batch.
  abbrev pub ResultOf : ℕ → Bool → Pipeline W → Option BatchInfo → Pipeline W → Type 0
  ResultOf n l1_batch p0 none p = Same p0 p
  ResultOf n l1_batch p0 (some info) p = Forged n l1_batch p0 info p

module _ {W : Type 0} (ops : PipelineOps W) (p0 : Pipeline W) where
  counted_state :
      (l1_batch : Bool) (p : Pipeline W)
      → Same p0 p
      → At p0 (count_l1_batch ops l1_batch p0).state (count_l1_batch ops l1_batch p)
  unfolding count_l1_batch
  counted_state false p h = h
  counted_state true p h =
      let f = h.0 in
      (
        record {
          cfg_same = f.cfg_same;
          stats_same = f.stats_same;
          err_same = f.err_same;
          pool_same = f.pool_same;
          time_same = f.time_same;
          batch_same = f.batch_same;
        },
        ap
              (λ (t : PipelineState). record t {
                last_scheduled_l1_batch_block_num = p.stats.eth_block + 1;
                last_forge_l1_txs_num = t.last_forge_l1_txs_num + 1;
              })
              h.1
            ∙ ap
                (λ (t : PipelineStats). record p0.state {
                  last_scheduled_l1_batch_block_num = t.eth_block + 1;
                  last_forge_l1_txs_num = p0.state.last_forge_l1_txs_num + 1;
                })
                f.stats_same,
      )

  pub pending_txs-Filled :
      (l1_batch : Bool) (s : TxSelection)
      → Ensures
          (Same p0)
          (pending_txs ops l1_batch s)
          (λ pending p. Same p0 p × (pending ≡ true → Filled l1_batch s))
          (Same p0)
  unfolding pending_txs
  pending_txs-Filled l1_batch s =
      Ensures-if (is_empty s.l1_user_txs && (is_empty s.l1_coord_txs && is_empty s.pool_l2_txs)) _ _
        (λ empty.
          Ensures-if l1_batch _ _
            (λ yes.
              Ensures-bind (calls ops ops.get_unforged_l1_user_txs_count) _
                (call_keeps ops p0 p0.state _)
                λ count. Ensures-pure (not (count == 0)) (λ p h. (h, λ _. inr yes)))
            (λ no. Ensures-pure false (λ p h. (h, λ e. cc))))
        (λ full. Ensures-pure true (λ p h. (h, λ _. inl full)))

  commit :
      (st : PipelineState) (p : Pipeline W)
      → At p0 st p
      → At p0 (record st { last_slot_forged = some p0.stats.slot_num }) (commit_slot ops p)
  commit st p h =
      let f = h.0 in
      (
        record {
          cfg_same = f.cfg_same;
          stats_same = f.stats_same;
          err_same = f.err_same;
          pool_same = f.pool_same;
          time_same = f.time_same;
          batch_same = f.batch_same;
        },
        ap (λ (t : PipelineState). record t { last_slot_forged = some p.stats.slot_num }) h.1
            ∙ ap (λ (t : PipelineStats). record st { last_slot_forged = some t.slot_num })
                f.stats_same,
      )

  -- The batch that is built of a selection, and the state after it
  abbrev info_of : ℕ → Bool → TxSelection → BatchInfo
  info_of n l1_batch s = record {
    batch_num = n;
    server_proof = 0;
    l1_batch = l1_batch;
    l1_user_txs = s.l1_user_txs;
    l1_coord_txs = s.l1_coord_txs;
    l2_txs = pool_l2_txs_to_l2_txs s.pool_l2_txs;
  }

  abbrev after : Bool → PipelineState
  after l1_batch = record (count_l1_batch ops l1_batch p0).state {
    last_slot_forged = some p0.stats.slot_num;
  }

  forge_selected-state :
      (n : ℕ) (l1_batch : Bool) (s : TxSelection)
      → Ensures
          (Same p0)
          (forge_selected ops n l1_batch s)
          (λ info p. At p0 (after l1_batch) p × (info ≡ info_of n l1_batch s))
          (At p0 (count_l1_batch ops l1_batch p0).state)
  unfolding forge_selected
  forge_selected-state n l1_batch s =
      let st : PipelineState = (count_l1_batch ops l1_batch p0).state in
      Ensures-bind (modify (count_l1_batch ops l1_batch)) _
        (Ensures-modify (count_l1_batch ops l1_batch) (counted_state l1_batch))
        λ _.
          Ensures-bind (calls ops (ops.start_forging s.pool_l2_txs n)) _ (call_keeps ops p0 st _)
            λ _.
              Ensures-bind (calls ops (ops.update_txs_info s.discarded_l2_txs n)) _
                (call_keeps ops p0 st _)
                λ _.
                  Ensures-bind (calls ops (ops.invalidate_old_nonces s.pool_l2_txs n)) _
                    (call_keeps ops p0 st _)
                    λ _.
                      Ensures-bind (calls ops (ops.build_batch s)) _ (call_keeps ops p0 st _) λ _.
                        Ensures-bind (modify (commit_slot ops)) _
                          (Ensures-modify (commit_slot ops) (commit st))
                          λ _. Ensures-pure (info_of n l1_batch s) (λ p h. (h, refl))

  counted_num :
      (l1_batch : Bool)
      → (after l1_batch).last_forge_l1_txs_num
        ≡ p0.state.last_forge_l1_txs_num + (if l1_batch then 1 else 0)
  unfolding count_l1_batch
  counted_num true = refl
  counted_num false = omega arith

  -- What is known before the batch is built
  abbrev pub Chosen : Bool → TxSelection → Type 0
  Chosen l1_batch s =
      (l1_batch ≡ true → Synced ops p0)
      × (l1_batch ≡ false → s.l1_user_txs ≡ [])
      × (p0.cfg.forge_once_per_slot_if_txs ≡ true
          → (slot_committed p0.stats p0.state ≡ false) × Filled l1_batch s)

  -- What an error leaves: the state as it was, or, once the batch is chosen, the L1 batch counted
  abbrev pub Failed : Bool → Pipeline W → Type 0
  Failed l1_batch p =
      Same p0 p
      ⊎ ((l1_batch ≡ true → Synced ops p0) × At p0 (count_l1_batch ops l1_batch p0).state p)

  pub forge_selected-Forged :
      (n : ℕ) (l1_batch : Bool) (s : TxSelection)
      → Chosen l1_batch s
      → Ensures
          (Same p0)
          (forge_selected ops n l1_batch s)
          (Forged n l1_batch p0)
          (At p0 (count_l1_batch ops l1_batch p0).state)
  forge_selected-Forged n l1_batch s (synced, l2_only, once) =
      Ensures-after (forge_selected-state n l1_batch s) (λ info p h. record {
        frame = h.0.0;
        num = ap (λ (t : BatchInfo). t.batch_num) h.1;
        kind = ap (λ (t : BatchInfo). t.l1_batch) h.1;
        synced = synced;
        l2_only = λ no. ap (λ (t : BatchInfo). t.l1_user_txs) h.1 ∙ l2_only no;
        counted = ap (λ (t : PipelineState). t.last_forge_l1_txs_num) h.0.1 ∙ counted_num l1_batch;
        committed = ap (λ (t : PipelineState). t.last_slot_forged) h.0.1;
        allowed = λ e. (once e).0;
        filled = λ e.
            subst
              (λ (t : BatchInfo).
                ((is_empty t.l1_user_txs && (is_empty t.l1_coord_txs && is_empty t.l2_txs)) ≡ false)
                ⊎ (l1_batch ≡ true))
              (sym h.1) (Filled-info l1_batch s (once e).1);
      })
