-- ===== src/Coordinator/Pipeline/Loops/Once.antt =====
-- What a run of the loops of the pipeline (coordinator/pipeline.go) keeps, and the L1 batches that are
-- between the two loops.
use han_hermez_node.Coordinator.Pipeline.{Pipeline, BatchInfo, PipelineOps, calls, forge_batch}
use han_hermez_node.Exec.Ensures.{Outcome}
use han_hermez_node.Coordinator.Pipeline.Loops.{
  Loops, handle_forge_batch, revert_pool_changes, is_benign, forge_outcome, forge_next, forge_tick,
  take_batch, proof_outcome, proof_tick, Event, forge, take_next, proof, sync, step, run,
}
use han_hermez_node.Coordinator.Pipeline.Loops.Carried.{View, Ok, Err, Tried, handle_forge_batch-Ok}
use han_hermez_node.Prelude.{
  ℕ, ◌+◌, ◌≤◌, ◌≡◌, refl, ap, Bool, true, false, Option, none, some, List, [], ◌∷◌, ◌++◌, arith,
  ◌==◌, if◌then◌else◌, All, Result, ok, err,
}

-- The L1 batches of a list, and those between the two loops
unfoldable pub l1_batches : List BatchInfo → ℕ
l1_batches [] = 0
l1_batches (info ∷ rest) = (if info.l1_batch then 1 else 0) + l1_batches rest

abbrev pub l1_waiting : Option BatchInfo → ℕ
l1_waiting none = 0
l1_waiting (some info) = if info.l1_batch then 1 else 0

abbrev pub l1_on_way : {W : Type 0} → Loops W → ℕ
l1_on_way l = l1_waiting l.waiting + l1_batches l.sent

pub l1_batches-snoc :
    (l : List BatchInfo) (info : BatchInfo)
    → l1_batches (l ++ (info ∷ [])) ≡ l1_batches l + (if info.l1_batch then 1 else 0)
unfolding l1_batches
l1_batches-snoc [] info = omega arith
l1_batches-snoc (x ∷ l) info = omega (arith, l1_batches-snoc l info)

module _ {W : Type 0} (ops : PipelineOps W) (V : View) where
  abbrev pub Seen : Pipeline W → Type 0
  Seen p = V p.cfg p.stats p.state

  -- A batch that is made is no L1 batch, and its number is of no account.
  abbrev pub Only : Bool → View
  Only b c s t = ((n : ℕ) → V c s (record t { batch_num = n })) × (b ≡ false)

  abbrev pub only_weaker : (b : Bool) (c : _) (s : _) (t : _) → Only b c s t → V c s t
  only_weaker b c s t h = h.0 t.batch_num

  -- An event whose stats keep the view
  abbrev pub Fits : Event ops → Type 0
  Fits (sync stats) = (p : Pipeline W) → Seen p → V p.cfg stats p.state
  Fits _ = Unit {0}

  -- The view holds, and no L1 batch has joined those on the way.
  abbrev pub Keep : Loops W → Loops W → Type 0
  Keep l l' = Seen l'.pipeline × (l1_on_way l' ≤ l1_on_way l)

  Keep-if :
      (l : Loops W) (b : Bool) (x y : Loops W) → Keep l x → Keep l y → Keep l (if b then x else y)
  Keep-if l true x y h k = h
  Keep-if l false x y h k = k

  module _ (schedule_deadline : ℕ → ℕ)
      (tries : (now n : ℕ) (p : Pipeline W)
        → Seen p
        → Outcome
            (Tried ops Only V only_weaker)
            (Err ops Only V only_weaker)
            (forge_batch ops schedule_deadline now n p)) where
    forge_outcome-Keep :
        (l : Loops W) (done n : ℕ) (r : Result BatchInfo × Pipeline W)
        → Outcome (Ok ops Only V only_weaker) (Err ops Only V only_weaker) r
        → Keep l (forge_outcome ops done n l r)
    unfolding forge_outcome revert_pool_changes
    forge_outcome-Keep l done n (ok info, p) h =
        (h.0 n, ground (arith, h.1, l1_batches-snoc l.sent info))
    forge_outcome-Keep l done n (err x, p) h =
        Keep-if l (is_benign ops x) _ _ (h, omega arith) (h, omega arith)

    forge_next-Keep :
        (now done : ℕ) (l : Loops W) (pool : List ℕ)
        → Seen l.pipeline
        → Keep l (forge_next ops schedule_deadline now done l pool)
    unfolding forge_next
    forge_next-Keep now done l [] v = (v, omega arith)
    forge_next-Keep now done l (sp ∷ rest) v =
        let n : ℕ = l.pipeline.state.batch_num + 1 in
        let p : Pipeline W = record l.pipeline { provers_pool = rest } in
        forge_outcome-Keep l done n (handle_forge_batch ops schedule_deadline now n sp p) (
          handle_forge_batch-Ok ops Only V only_weaker schedule_deadline now n sp p
            (tries now n p v))

    take_batch-Keep :
        (l : Loops W) (sent : List BatchInfo) (waiting : Option BatchInfo)
        → l.sent ≡ sent
        → l.waiting ≡ waiting
        → Seen l.pipeline
        → Keep l (take_batch ops l sent waiting)
    unfolding take_batch revert_pool_changes l1_batches
    take_batch-Keep l [] waiting e f v = (v, omega arith)
    take_batch-Keep l (info ∷ rest) (some other) e f v = (v, omega arith)
    take_batch-Keep l (info ∷ rest) none e f v =
        let s : l1_batches l.sent ≡ (if info.l1_batch then 1 else 0) + l1_batches rest =
          ap l1_batches e in
        let w : l1_waiting l.waiting ≡ 0 = ap l1_waiting f in
        Keep-if l (l.pipeline.err_at_batch_num == 0) _ _ (v, omega (arith, s, w))
          (v, omega (arith, s, w))

    proof_outcome-Keep :
        (l : Loops W) (info : BatchInfo) (r : Result (Unit {0}) × Pipeline W)
        → Seen r.1
        → Keep l (proof_outcome ops l info r)
    unfolding proof_outcome revert_pool_changes
    proof_outcome-Keep l info (ok u, p) v = (v, omega arith)
    proof_outcome-Keep l info (err x, p) v = (v, omega arith)

    proof_tick-Keep :
        (l : Loops W) (waiting : Option BatchInfo)
        → Seen l.pipeline
        → Keep l (proof_tick ops l waiting)
    unfolding proof_tick
    proof_tick-Keep l none v = (v, omega arith)
    proof_tick-Keep l (some info) v =
        proof_outcome-Keep l info (calls ops (ops.get_proof info.server_proof) l.pipeline) v

    step-Keep :
        (l : Loops W) (e : Event ops)
        → Fits e
        → Seen l.pipeline
        → Keep l (step ops schedule_deadline l e)
    unfolding step forge_tick
    step-Keep l (forge now done) f v =
        Keep-if l (l.pipeline.err_at_batch_num == 0) _ _
          (forge_next-Keep now done l l.pipeline.provers_pool v) (v, omega arith)
    step-Keep l take_next f v = take_batch-Keep l l.sent l.waiting refl refl v
    step-Keep l proof f v = proof_tick-Keep l l.waiting v
    step-Keep l (sync stats) f v = (f l.pipeline v, omega arith)

    pub run-Keep :
        (l : Loops W) (es : List (Event ops))
        → All Fits es
        → Seen l.pipeline
        → Keep l (run ops schedule_deadline l es)
    unfolding run
    run-Keep l [] f v = (v, omega arith)
    run-Keep l (e ∷ es) f v =
        let k = step-Keep l e f.0 v in
        let m = run-Keep (step ops schedule_deadline l e) es f.1 k.0 in
        (m.0, omega (arith, k.1, m.1))
