-- ===== src/Coordinator/Pipeline/Forging.antt =====
-- What `forgeBatch` (coordinator/pipeline.go) does to the pipeline and which batch it makes.
use han_hermez_node.Exec.{Exec, pure, ensure, gets, modify}
use han_hermez_node.Exec.Ensures.{
  Ensures, Ensures-pure, Ensures-gets, Ensures-after, Ensures-zoom, Ensures-modify, Ensures-ensure,
  Ensures-bind, Ensures-given,
}
use han_hermez_node.Coordinator.Purger.{Purger, purge_maybe, invalidate_maybe}
use han_hermez_node.Coordinator.Pipeline.{
  PipelineStats, PipelineState, Pipeline, TxSelection, PipelineOps, calls, set_purger,
  run_invalidate, run_purge, run_purger, select_txs,
}
use han_hermez_node.Prelude.{
  ℕ, ◌+◌, ◌≡◌, refl, sym, ap, ◌∙◌, Bool, true, false, [], ◌==◌, ==_iff, if◌then◌else◌, Error,
}

module _ {W : Type 0} where
  -- All but the state and what the purger and the databases keep.
  pub record Frame (p p' : Pipeline W) : Type 0 where
    pub cfg_same : p'.cfg ≡ p.cfg
    pub stats_same : p'.stats ≡ p.stats
    pub err_same : p'.err_at_batch_num ≡ p.err_at_batch_num
    pub pool_same : p'.provers_pool ≡ p.provers_pool
    pub time_same : p'.last_forge_time ≡ p.last_forge_time
    pub batch_same : p'.state.batch_num ≡ p.state.batch_num

  -- With a given state, and with the same
  abbrev pub At : Pipeline W → PipelineState → Pipeline W → Type 0
  At p st p' = Frame p p' × (p'.state ≡ st)

  abbrev pub Same : Pipeline W → Pipeline W → Type 0
  Same p = At p p.state

  pub Frame-refl : (p : Pipeline W) → Frame p p
  Frame-refl p = record {
    cfg_same = refl;
    stats_same = refl;
    err_same = refl;
    pool_same = refl;
    time_same = refl;
    batch_same = refl;
  }

  pub Frame-world : (p0 p : Pipeline W) (w : W) → Frame p0 p → Frame p0 (record p { world = w })
  Frame-world p0 p w h = record {
    cfg_same = h.cfg_same;
    stats_same = h.stats_same;
    err_same = h.err_same;
    pool_same = h.pool_same;
    time_same = h.time_same;
    batch_same = h.batch_same;
  }

  Frame-purger : (p0 p : Pipeline W) (q : Purger) → Frame p0 p → Frame p0 (record p { purger = q })
  Frame-purger p0 p q h = record {
    cfg_same = h.cfg_same;
    stats_same = h.stats_same;
    err_same = h.err_same;
    pool_same = h.pool_same;
    time_same = h.time_same;
    batch_same = h.batch_same;
  }

module _ {W : Type 0} (ops : PipelineOps W) (p0 : Pipeline W) where
  -- A call keeps whatever does not read the databases.
  pub call_keeps :
      {A : Type 0} (st : PipelineState) (m : Exec W A)
      → Ensures (At p0 st) (calls ops m) (λ _. At p0 st) (At p0 st)
  call_keeps st m =
      Ensures-zoom (λ p. p.world) (λ w p. record p { world = w }) m
        (λ s t h. (Frame-world p0 s t h.0, h.1))

  set_purger-keeps :
      (q : Purger) → Ensures (Same p0) (modify (set_purger ops q)) (λ _. Same p0) (Same p0)
  set_purger-keeps q = Ensures-modify (set_purger ops q) (λ s h. (Frame-purger p0 s q h.0, h.1))

  may_call-keeps :
      (may : Bool) (m : Exec W (Unit {0}))
      → Ensures (Same p0) (if may then calls ops m else pure tt) (λ _. Same p0) (Same p0)
  may_call-keeps true m = call_keeps p0.state m
  may_call-keeps false m = Ensures-pure tt (λ s h. h)

  pub run_purger-keeps : (n : ℕ) → Ensures (Same p0) (run_purger ops n) (λ _. Same p0) (Same p0)
  unfolding run_purger run_invalidate run_purge
  run_purger-keeps n = Ensures-bind (gets (λ p. p)) _ (Ensures-gets (λ p. p) (λ s h. h)) λ p.
      let (may, q) = invalidate_maybe p.purger p.stats.sync_block n in
      Ensures-bind (run_invalidate ops n (may, q)) _
        (Ensures-bind (modify (set_purger ops q)) _ (set_purger-keeps q)
          λ _. may_call-keeps may (ops.mark_invalid_old_nonces n))
        λ _. Ensures-bind (gets (λ p. p)) _ (Ensures-gets (λ p. p) (λ s h. h)) λ p'.
          let (may', q') = purge_maybe p'.purger p'.stats.sync_block n in
          Ensures-bind (modify (set_purger ops q')) _ (set_purger-keeps q')
            λ _. may_call-keeps may' (ops.purge n)

  -- The last L1 batch that was forged is synced.
  abbrev pub Synced : Type 0
  Synced = p0.state.last_forge_l1_txs_num ≡ p0.stats.last_forge_l1_txs_num

  -- What the selection of a batch of a kind tells
  abbrev pub Selected : Bool → TxSelection → Pipeline W → Type 0
  Selected l1_batch s p =
      Same p0 p × ((l1_batch ≡ true → Synced) × (l1_batch ≡ false → s.l1_user_txs ≡ []))

  synced_of :
      (p : Pipeline W)
      → Same p0 p
      → (p.state.last_forge_l1_txs_num == p.stats.last_forge_l1_txs_num) ≡ true
      → Synced
  synced_of p h e =
      sym (ap (λ (t : PipelineState). t.last_forge_l1_txs_num) h.1)
      ∙ (==_iff p.state.last_forge_l1_txs_num p.stats.last_forge_l1_txs_num).0 e
      ∙ ap (λ (t : PipelineStats). t.last_forge_l1_txs_num) h.0.stats_same

  pub get_state : Ensures (Same p0) (gets (λ p. p)) (λ p s. Same p0 s × Same p0 p) (Same p0)
  get_state = Ensures-gets (λ p. p) (λ s h. (h, h))

  pub select_txs-Selected :
      (l1_batch : Bool) → Ensures (Same p0) (select_txs ops l1_batch) (Selected l1_batch) (Same p0)
  unfolding select_txs
  select_txs-Selected true = Ensures-bind (gets (λ p. p)) _ get_state λ p. Ensures-given λ known.
      Ensures-bind
        (ensure (p.state.last_forge_l1_txs_num == p.stats.last_forge_l1_txs_num)
          Error.last_l1_batch_not_synced)
        _
        (Ensures-ensure (p.state.last_forge_l1_txs_num == p.stats.last_forge_l1_txs_num)
          Error.last_l1_batch_not_synced)
        λ _. Ensures-given λ equal.
          Ensures-bind
            (calls ops (ops.get_unforged_l1_user_txs (p.state.last_forge_l1_txs_num + 1))) _
            (call_keeps p0.state _)
            λ txs.
              Ensures-bind
                (calls ops
                  (ops.get_unforged_l1_user_future_txs (p.state.last_forge_l1_txs_num + 1)))
                _ (call_keeps p0.state _)
                λ future.
                  Ensures-after (call_keeps p0.state (ops.get_l1_l2_tx_selection txs future))
                    (λ s p' h. (h, ((λ _. synced_of p known equal), λ no. cc)))
  select_txs-Selected false = Ensures-bind (gets (λ p. p)) _ get_state λ p. Ensures-given λ known.
      Ensures-bind (calls ops (ops.get_unforged_l1_user_future_txs p.state.last_forge_l1_txs_num)) _
        (call_keeps p0.state _)
        λ future.
          Ensures-bind (calls ops (ops.get_l2_tx_selection future)) _ (call_keeps p0.state _)
            λ s. Ensures-pure (record s { l1_user_txs = [] }) (λ p' h. (h, ((λ no. cc), λ _. refl)))
