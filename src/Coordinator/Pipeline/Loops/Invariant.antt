-- ===== src/Coordinator/Pipeline/Loops/Invariant.antt =====
-- What holds between the steps of the two loops of the pipeline (coordinator/pipeline.go).
use han_hermez_node.Exec.Ensures.{Outcome}
use han_hermez_node.Coordinator.Pipeline.{Pipeline, BatchInfo, PipelineOps}
use han_hermez_node.Coordinator.Pipeline.Loops.{
  Loops, revert_pool_changes, is_benign, forge_outcome, start,
}
use han_hermez_node.Coordinator.Pipeline.Loops.Outcomes.{Kept, revert-Kept}
use han_hermez_node.Prelude.{
  ℕ, ◌+◌, ◌≡◌, refl, sym, ap, ◌∙◌, subst, ◌≢◌, Bool, true, false, Option, none, some, List, [], ◌∷◌,
  ◌++◌, arith, if◌then◌else◌, length, length-append, Result, ok, err,
}

-- The last batch of those that were given, the last first, from a start on
abbrev pub last_of : ℕ → List ℕ → ℕ
last_of start [] = start
last_of start (n ∷ ns) = n

-- One number after the other
abbrev pub InOrder : ℕ → List ℕ → Type 0
InOrder start [] = Unit {0}
InOrder start (n ∷ ns) = (n ≡ last_of start ns + 1) × InOrder start ns

-- The batches in the channel lead from one number to another.
abbrev pub Leads : ℕ → List BatchInfo → ℕ → Type 0
Leads a [] b = b ≡ a
Leads a (info ∷ rest) b = (info.batch_num ≡ a + 1) × Leads info.batch_num rest b

Leads-snoc :
    (a : ℕ) (l : List BatchInfo) (b : ℕ) (info : BatchInfo) (n : ℕ)
    → Leads a l b
    → info.batch_num ≡ n
    → n ≡ b + 1
    → Leads a (l ++ (info ∷ [])) n
Leads-snoc a [] b info n h e f = (omega (arith, h, e, f), sym e)
Leads-snoc a (x ∷ l) b info n h e f = (h.0, Leads-snoc x.batch_num l b info n h.1 e f)

abbrev pub awaited : Option BatchInfo → ℕ
awaited none = 0
awaited (some info) = 1

abbrev pub reached : ℕ → List ℕ → Option BatchInfo → ℕ
reached start added none = last_of start added
reached start added (some info) = info.batch_num

abbrev pub Next : ℕ → List ℕ → Option BatchInfo → Type 0
Next start added none = Unit {0}
Next start added (some info) = info.batch_num ≡ last_of start added + 1

-- What holds between the steps, of the numbers given, the batch awaited, the channel, the error mark,
-- the number of free provers and the batch number.
pub record Inv (begin total : ℕ) (added : List ℕ) (waiting : Option BatchInfo)
    (sent : List BatchInfo) (err_at free batch_num : ℕ) : Type 0 where
  pub given : InOrder begin added
  pub next : Next begin added waiting
  pub coming : err_at ≡ 0 → Leads (reached begin added waiting) sent batch_num
  pub provers : err_at ≡ 0 → free + length sent + awaited waiting ≡ total

module _ {W : Type 0} (ops : PipelineOps W) (begin total : ℕ) where
  abbrev pub Holds : Loops W → Type 0
  Holds l =
      Inv begin total l.added l.waiting l.sent l.pipeline.err_at_batch_num
        (length l.pipeline.provers_pool) l.pipeline.state.batch_num

  abbrev pub HoldsOf : List ℕ → Option BatchInfo → List BatchInfo → Pipeline W → Type 0
  HoldsOf added waiting sent p =
      Inv begin total added waiting sent p.err_at_batch_num (length p.provers_pool)
        p.state.batch_num

  module _ (added : List ℕ) (waiting : Option BatchInfo) (sent : List BatchInfo) where
    pub Kept-Inv :
        (p p' : Pipeline W)
        → Kept ops p p'
        → HoldsOf added waiting sent p
        → HoldsOf added waiting sent p'
    Kept-Inv p p' k v = record {
      given = v.given;
      next = v.next;
      coming = λ e.
          subst (Leads (reached begin added waiting) sent) (sym k.batch_same)
            (v.coming (sym k.err_same ∙ e));
      provers = λ e. omega (arith, ap length k.pool_same, v.provers (sym k.err_same ∙ e));
    }

    -- After an error nothing is said of the channel and the provers.
    pub failed-Inv :
        (p : Pipeline W)
        → InOrder begin added
        → Next begin added waiting
        → p.err_at_batch_num ≢ 0
        → HoldsOf added waiting sent p
    failed-Inv p g n bad = record {
      given = g;
      next = n;
      coming = λ e. absurd (bad e);
      provers = λ e. absurd (bad e);
    }

  pub Holds-if :
      (b : Bool) (l l' : Loops W)
      → (b ≡ true → Holds l)
      → (b ≡ false → Holds l')
      → Holds (if b then l else l')
  Holds-if true l l' h h' = h refl
  Holds-if false l l' h h' = h' refl

  -- `forge_outcome` on a free prover
  pub forge_outcome-Holds :
      (l : Loops W) (done server_proof : ℕ) (rest : List ℕ) (r : Result BatchInfo × Pipeline W)
      → Holds l
      → l.pipeline.err_at_batch_num ≡ 0
      → l.pipeline.provers_pool ≡ server_proof ∷ rest
      → (let p : Pipeline W = record l.pipeline { provers_pool = rest } in
          Outcome
            (λ info p'. Kept ops p p' × (info.batch_num ≡ l.pipeline.state.batch_num + 1))
            (λ p'.
              (p'.err_at_batch_num ≡ l.pipeline.err_at_batch_num)
              × (p'.provers_pool ≡ rest ++ (server_proof ∷ []))
              × (p'.state.batch_num ≡ l.pipeline.state.batch_num))
            r)
      → Holds (forge_outcome ops done (l.pipeline.state.batch_num + 1) l r)
  unfolding forge_outcome
  forge_outcome-Holds l done sp rest (ok info, p) v fine pool h = record {
    given = v.given;
    next = v.next;
    coming = λ e.
        Leads-snoc (reached begin l.added l.waiting) l.sent l.pipeline.state.batch_num info
          (l.pipeline.state.batch_num + 1) (v.coming fine) h.1 refl;
    provers = λ e. omega (
      arith,
      v.provers fine,
      ap length pool,
      ap length h.0.pool_same,
      length-append l.sent (info ∷ []),
    );
  }
  forge_outcome-Holds l done sp rest (err x, p) v fine pool h =
      let n : ℕ = l.pipeline.state.batch_num + 1 in
      let failed : Pipeline W = record p { err_at_batch_num = n } in
      let again : HoldsOf l.added l.waiting l.sent p = record {
        given = v.given;
        next = v.next;
        coming =
            λ e. subst (Leads (reached begin l.added l.waiting) l.sent) (sym h.2) (v.coming fine);
        provers = λ e.
            omega
              (arith, v.provers fine, ap length pool, ap length h.1, length-append rest (sp ∷ []));
      } in
      Holds-if (is_benign ops x) _ _
        (λ _.
          Kept-Inv l.added l.waiting l.sent p (revert_pool_changes ops n p) (revert-Kept ops n p)
            again)
        (λ _.
          Kept-Inv l.added l.waiting l.sent failed (revert_pool_changes ops n failed)
            (revert-Kept ops n failed)
            (failed-Inv l.added l.waiting l.sent failed v.given v.next (λ e. omega (arith, e))))
