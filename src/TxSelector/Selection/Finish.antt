-- ===== src/TxSelector/Selection/Finish.antt =====
-- What comes before and behind the selection loop of `getL1L2TxSelection`.
use han_hermez_node.Exec as Exec
use han_hermez_node.Exec.Success.{>>=-Succeeds}
use han_hermez_node.Crypto.{Crypto}
use han_hermez_node.Common.Tx.{L1Tx, PoolL2Tx}
use han_hermez_node.StateDb.{StateDb}
use han_hermez_node.TxProcessor.State.{TxProcessor, Config}
use han_hermez_node.TxProcessor.Process.{process_l1_tx}
use han_hermez_node.TxSelector.State.{Go, Setup, FailedAtomicGroup, empty_atomic_group_id}
use han_hermez_node.TxSelector.Groups.{
  filter_failed_atomic_groups, filter_invalid_atomic_groups, calculate_atomic_groups_average_fee,
}
use han_hermez_node.TxSelector.Groups.Partition.{
  Permutes, filter_failed-count, filter_invalid-count,
}
use han_hermez_node.TxSelector.Sort.{sort_l2_txs}
use han_hermez_node.TxSelector.Sort.Together.{sort_l2_txs-together}
use han_hermez_node.TxSelector.Groups.Together.{members}
use han_hermez_node.TxSelector.Groups.Whole.{filter_failed-Whole, filter_invalid-Whole}
use han_hermez_node.TxSelector.Sort.Partition.{sort_l2_txs-count}
use han_hermez_node.TxSelector.Step.Partition.{ids}
use han_hermez_node.TxSelector.Selection.{
  Chosen, Batch, process_l1_user_txs, coord_idxs_map, distribute_fees, finish_batch, selectable,
  choose,
}
use han_hermez_node.TxSelector.Selection.Keeps.{GoesWhole, Keeps, Ends, Ends-weaken}
use han_hermez_node.TxSelector.Selection.Loop.{selection_loop-Ends}
use han_hermez_node.Prelude.{
  ℕ, suc, ◌+◌, ◌≤◌, ◌≡◌, refl, ap, ◌∙◌, ◌≢◌, ◌⊎◌, inl, inr, Bool, Option, none, some, List, [], ◌∷◌,
  arith, ◌==◌, Bool-cases, length, Result, ok, err, Result-cases, count_if, count_if-append,
}

-- What a batch promises, where `n_user` user transactions are in it: its limits, one signature for
-- each account that the coordinator creates, and every transaction of the pool either in the batch or
-- discarded, as often as the pool has it. The transactions of an atomic group are all in the batch or
-- all discarded.
pub record IsSelection (config : Config) (n_user : ℕ) (pool : List PoolL2Tx) (b : Batch)
    : Type 0 where
  pub users : length b.l1_user_txs ≡ n_user
  pub all_txs : length b.l1_user_txs + length b.l1_coordinator_txs + length b.l2_txs ≤ config.max_tx
  pub l1_txs : length b.l1_user_txs + length b.l1_coordinator_txs ≤ config.max_l1_tx
  pub auths : length b.acc_auths ≡ length b.l1_coordinator_txs
  pub counts :
      (test : ℕ → ℕ → Bool)
      → count_if (ids test) b.l2_txs + count_if (ids test) b.discarded ≡ count_if (ids test) pool
  pub groups :
      (a : ℕ)
      → (a ≡ empty_atomic_group_id) ⊎ ((members a b.l2_txs ≡ 0) ⊎ (members a b.discarded ≡ 0))

-- The code returns; what it returns without an error is a selection.
unfoldable pub Returns : Config → ℕ → List PoolL2Tx → Option (Result Batch × StateDb) → Type 0
Returns config n_user pool none = ⊥
Returns config n_user pool (some (ok b, s)) = IsSelection config n_user pool b
Returns config n_user pool (some (err e, s)) = Unit

module _ (c : Crypto) (w : Setup) (future : List L1Tx) where
  pub process_l1_user_txs-length :
      (txs : List L1Tx) (p : TxProcessor) (l1 : List L1Tx)
      → (process_l1_user_txs c w future txs p).0 ≡ ok l1
      → length l1 ≡ length txs
  unfolding process_l1_user_txs
  process_l1_user_txs-length [] p l1 done = ground (arith, done)
  process_l1_user_txs-length (tx ∷ txs) p l1 done =
      let a =
        >>=-Succeeds (process_l1_tx c tx)
          (λ r. Exec.◌>>=◌ (process_l1_user_txs c w future txs) λ rest. Exec.pure (r.tx ∷ rest)) p
          done in
      let q = (process_l1_tx c tx p).1 in
      let b =
        >>=-Succeeds (process_l1_user_txs c w future txs) (λ rest. Exec.pure (a.value.tx ∷ rest)) q
          a.rest in
      ground (arith, b.rest, process_l1_user_txs-length txs q b.value b.first)

  pub finish_batch-Returns :
      (pool : List PoolL2Tx) (n_user : ℕ) (l1 : List L1Tx) (ch : Chosen) (s : StateDb)
      → length l1 ≡ n_user
      → Keeps w.config n_user (λ test. count_if (ids test) pool) ch []
      → Returns w.config n_user pool (some (finish_batch c w future l1 ch s))
  unfolding finish_batch Returns count_if GoesWhole
  finish_batch-Returns pool n_user l1 ch s users h =
      elim (Result-cases (coord_idxs_map c w future ch.selected [] s)) [
        | inl (m, e) ↦ elim (Result-cases (distribute_fees c w future ch.tp.accumulated_fees s).0) [
          | inl (x, f) ↦
              rw (e, f, finish_batch)
                (record {
                  users = users;
                  all_txs = omega (arith, h.all_txs, users);
                  l1_txs = omega (arith, h.l1_txs, users);
                  auths = h.auths;
                  counts = λ test. omega (arith, h.counts test);
                  groups = λ a. elim (Bool-cases (a == empty_atomic_group_id)) [
                    | inl e ↦ inl (ground (arith, e))
                    | inr n ↦ inr (elim (h.groups a (ground (arith, n))) [
                      | inl ((e, t), only) ↦ inl e
                      | inr (e, d) ↦ inr d
                    ])
                  ];
                })
          | inr (x, f) ↦ rw (e, f, finish_batch) tt
        ]
        | inr (x, e) ↦ rw (e, finish_batch) tt
      ]

module _ (c : Crypto) (w : Setup) (go : Go) (laws : Permutes go) (future : List L1Tx)
    (pool : List PoolL2Tx) where
  pub selectable-count :
      (test : ℕ → ℕ → Bool) (failed : List FailedAtomicGroup)
      → let (txs, out) = selectable c w go future pool failed in
        count_if (ids test) txs + count_if (ids test) out ≡ count_if (ids test) pool
  unfolding selectable
  selectable-count test failed =
      let (left, out) = filter_failed_atomic_groups pool failed in
      omega (
        arith,
        filter_failed-count test pool failed,
        filter_invalid-count test go laws left,
        count_if-append (ids test) out (filter_invalid_atomic_groups go left).1,
      )

  selectable_le :
      (test : ℕ → ℕ → Bool) (failed : List FailedAtomicGroup)
      → count_if (ids test) (selectable c w go future pool failed).0
        ≤ count_if (ids test) (filter_failed_atomic_groups pool failed).0
  unfolding selectable
  selectable_le test failed =
      let left = (filter_failed_atomic_groups pool failed).0 in
      omega (arith, filter_invalid-count test go laws left)

  -- A group is among the transactions that can be selected, or among those that cannot.
  selectable-Whole :
      (a : ℕ)
      → a ≢ empty_atomic_group_id
      → (failed : List FailedAtomicGroup)
      → (members a (selectable c w go future pool failed).0 ≡ 0)
        ⊎ (members a (selectable c w go future pool failed).1 ≡ 0)
  unfolding selectable
  selectable-Whole a atomic failed =
      let (left, out) = filter_failed_atomic_groups pool failed in
      let of_a = λ (tx_id group : ℕ). group == a in
      elim (filter_failed-Whole a atomic pool failed) [
        | inl e ↦ inl (omega (arith, e, filter_invalid-count of_a go laws left))
        | inr e ↦ elim (filter_invalid-Whole a atomic go laws left) [
          | inl x ↦ inl x
          | inr x ↦ inr (
              omega (
                arith,
                e,
                x,
                count_if-append (ids of_a) out (filter_invalid_atomic_groups go left).1,
              ))
        ]
      ]

  start-GoesWhole :
      (a : ℕ)
      → a ≢ empty_atomic_group_id
      → (failed : List FailedAtomicGroup) (ch : Chosen) (fees : List (ℕ × ℕ)) → ch.selected ≡ []
      → ch.discarded ≡ (selectable c w go future pool failed).1
      → GoesWhole a ch (sort_l2_txs go (selectable c w go future pool failed).0 fees)
  unfolding GoesWhole count_if
  start-GoesWhole a atomic failed ch fees none_yet out =
      let txs = (selectable c w go future pool failed).0 in
      let of_a = λ (tx_id group : ℕ). group == a in
      inl (
        (ap (members a) none_yet, sort_l2_txs-together a atomic go laws txs fees),
        elim (selectable-Whole a atomic failed) [
          | inl e ↦ inl (sort_l2_txs-count go of_a laws txs fees ∙ e)
          | inr e ↦ inr (ap (members a) out ∙ e)
        ],
      )

  -- A group that fails has a transaction that no failed group took away.
  pub choose-Ends :
      (n_user : ℕ) (tp : TxProcessor) (failed : List FailedAtomicGroup)
      → n_user ≤ w.config.max_tx
      → n_user ≤ w.config.max_l1_tx
      → Ends w.config n_user
          (λ test. count_if (ids test) pool)
          (filter_failed_atomic_groups pool failed).0
          (choose c w go future pool n_user tp failed)
  unfolding choose count_if
  choose-Ends n_user tp failed fits fits_l1 =
      let (txs, out) = selectable c w go future pool failed in
      let fees = calculate_atomic_groups_average_fee go txs in
      let sorted = sort_l2_txs go txs fees in
      let left = (filter_failed_atomic_groups pool failed).0 in
      let start : Chosen = record {
        tp = tp;
        acc_auths = [];
        l1_coordinator_txs = [];
        selected = [];
        discarded = out;
      } in
      let kept : Keeps w.config n_user (λ test. count_if (ids test) pool) start sorted = record {
        all_txs = omega (arith, fits);
        l1_txs = omega (arith, fits_l1);
        auths = refl;
        counts = λ test.
            omega (arith, selectable-count test failed, sort_l2_txs-count go test laws txs fees);
        groups = λ a atomic. start-GoesWhole a atomic failed start fees refl refl;
      } in
      Ends-weaken w.config n_user (λ test. count_if (ids test) pool) left sorted _
        (λ test. omega (arith, sort_l2_txs-count go test laws txs fees, selectable_le test failed))
        (selection_loop-Ends c w future n_user (λ test. count_if (ids test) pool)
          (suc (length sorted)) start sorted (omega arith) kept)
