-- ===== src/TxSelector/Step/Whole.antt =====
-- An iteration of `processL2Txs` selects a whole atomic group or nothing of it.
use han_hermez_node.Crypto.{Crypto}
use han_hermez_node.Common.Tx.{L1Tx, PoolL2Tx}
use han_hermez_node.TxProcessor.State.{TxProcessor, Config}
use han_hermez_node.TxSelector.State.{
  Setup, Selection, empty_atomic_group_id, err_no_available_slots,
}
use han_hermez_node.TxSelector.Pick.{next}
use han_hermez_node.TxSelector.Pick.Leads.{After}
use han_hermez_node.TxSelector.Groups.Together.{
  members, heads, together, heads-none, together-none, together-append-right,
}
use han_hermez_node.TxSelector.Step.{add_l1_coordinator_tx, process_l2_txs}
use han_hermez_node.TxSelector.Step.Ids.{SameIds}
use han_hermez_node.TxSelector.Step.Loop.{
  Loops, without_slots, HasSlot-add_l1, process_l2_txs-After,
}
use han_hermez_node.TxSelector.Step.Partition.{ids}
use han_hermez_node.Prelude.{
  ℕ, ◌+◌, ◌≡◌, refl, ◌∙◌, ◌≢◌, ◌⊎◌, inl, inr, true, false, List, [], ◌∷◌, ◌++◌, arith, ◌==◌,
  if◌then◌else◌, Bool-cases, length, count_if, count_if-append,
}

module _ (a : ℕ) (atomic : a ≢ empty_atomic_group_id) where
  -- Of the group nothing is selected, and what is left of it stands together; or nothing of it is
  -- rejected, and what is left of it comes first.
  unfoldable Begun : List PoolL2Tx → Selection → Type 0
  Begun txs s =
      (members a s.unforjable ≡ 0)
      × (((members a s.selected ≡ 0)
            × (((members a s.non_selected ≡ 0) × (together a txs ≡ true))
                ⊎ ((length txs ≡ 0) × (together a s.non_selected ≡ true))))
          ⊎ ((members a s.non_selected ≡ 0) × (heads a txs ≡ true)))

  members-add :
      (l : List PoolL2Tx) (tx : PoolL2Tx)
      → members a (l ++ tx ∷ []) ≡ members a l + (if tx.atomic_group_id == a then 1 else 0)
  unfolding count_if
  members-add l tx = ground (arith, count_if-append (ids (λ tx_id group. group == a)) l (tx ∷ []))

  -- A transaction of no group, or of another, goes.
  other :
      (tx : PoolL2Tx)
      → tx.atomic_group_id ≡ empty_atomic_group_id
      → (tx.atomic_group_id == a) ≡ false
  other tx g = ground (arith, g, atomic)

  add-none :
      (l : List PoolL2Tx) (tx tx' : PoolL2Tx)
      → tx.atomic_group_id ≡ empty_atomic_group_id
      → SameIds tx tx'
      → members a l ≡ 0
      → members a (l ++ tx' ∷ []) ≡ 0
  add-none l tx tx' g same e = ground (arith, e, members-add l tx', other tx' (same.group ∙ g))

  together-rest :
      (tx : PoolL2Tx) (rest : List PoolL2Tx)
      → (tx.atomic_group_id == a) ≡ false
      → together a (tx ∷ rest) ≡ true
      → together a rest ≡ true
  unfolding together
  together-rest tx rest n h = ground (arith, n, h)

  heads-rest :
      (tx : PoolL2Tx) (rest : List PoolL2Tx)
      → (tx.atomic_group_id == a) ≡ false
      → heads a (tx ∷ rest) ≡ true
      → members a rest ≡ 0
  unfolding heads
  heads-rest tx rest n h = ground (arith, n, h)

  -- The transaction is in one of the arrays of the rejected.
  Begun-reject :
      (tx : PoolL2Tx) (rest : List PoolL2Tx) (s : Selection) (l m : List PoolL2Tx)
      → tx.atomic_group_id ≡ empty_atomic_group_id
      → Begun (tx ∷ rest) s
      → members a l ≡ 0
      → (members a s.non_selected ≡ 0 → members a m ≡ 0)
      → Begun rest (record s { unforjable = l; non_selected = m })
  unfolding Begun
  Begun-reject tx rest s l m g h el em = (
    el,
    elim h.1 [
      | inl (e, inl (n, t)) ↦ inl (e, inl (em n, together-rest tx rest (other tx g) t))
      | inl (e, inr (x, t)) ↦ ground (arith, x)
      | inr (n, t) ↦ inr (em n, heads-none a rest (heads-rest tx rest (other tx g) t))
    ],
  )

  Begun-select :
      (tx tx' : PoolL2Tx) (rest : List PoolL2Tx) (s : Selection)
      → SameIds tx tx'
      → Begun (tx ∷ rest) s
      → Begun rest (record s { n_l2 = s.n_l2 + 1; selected = s.selected ++ tx' ∷ [] })
  unfolding Begun together heads
  Begun-select tx tx' rest s same h = elim (Bool-cases (tx.atomic_group_id == a)) [
    | inl is ↦ (
      h.0,
      elim h.1 [
        | inl (e, inl (n, t)) ↦ inr (n, ground (arith, t, is))
        | inl (e, inr (x, t)) ↦ ground (arith, x)
        | inr (n, t) ↦ inr (n, ground (arith, t, is))
      ],
    )
    | inr not_a ↦ (
      h.0,
      elim h.1 [
        | inl (e, inl (n, t)) ↦ inl (
          ground (arith, e, members-add s.selected tx', same.group, not_a),
          inl (n, together-rest tx rest not_a t),
        )
        | inl (e, inr (x, t)) ↦ ground (arith, x)
        | inr (n, t) ↦ inr (n, heads-none a rest (heads-rest tx rest not_a t))
      ],
    )
  ]

  Begun-full :
      (tx : PoolL2Tx) (rest : List PoolL2Tx) (s : Selection)
      → tx.atomic_group_id ≡ empty_atomic_group_id
      → Begun (tx ∷ rest) s
      → Begun [] (without_slots tx rest s)
  unfolding Begun together heads count_if
  Begun-full tx rest s g h = (
    h.0,
    elim h.1 [
      | inl (e, inl (n, t)) ↦ inl (
        e,
        inr (refl, together-append-right a s.non_selected _ n (ground (arith, t, other tx g))),
      )
      | inl (e, inr (x, t)) ↦ ground (arith, x)
      | inr (n, t) ↦ inr (
        ground (
          arith,
          n,
          heads-rest tx rest (other tx g) t,
          other tx g,
          count_if-append (ids (λ tx_id group. group == a)) s.non_selected
              (record tx { error_code = err_no_available_slots } ∷ rest),
        ),
        refl,
      )
    ],
  )

  Begun-Loops : (config : Config) → Loops config Begun
  unfolding Begun add_l1_coordinator_tx
  Begun-Loops config = record {
    steps = λ tx rest. record {
      at_tp = λ p s h. h;
      at_l1 = λ l1 auth s space h. (h.0, HasSlot-add_l1 config l1 auth s space);
      at_unforjable = λ tx' s g same h.
          Begun-reject tx rest s _ _ g h.0 (add-none s.unforjable tx tx' g same h.0.0) (λ n. n);
      at_non_selected = λ tx' s g same h.
          Begun-reject tx rest s _ _ g h.0 h.0.0 (add-none s.non_selected tx tx' g same);
      at_selected = λ tx' s same h. Begun-select tx tx' rest s same h.0;
    };
    full = Begun-full;
  }

  -- An iteration that is given an atomic group's transactions one behind the other, and ends without
  -- a failed group and without an error, finds none of them impossible to forge; and either it selects
  -- none of them, and those that it leaves stand one behind the other, or it leaves none of them.
  pub process_l2_txs-Whole :
      (c : Crypto) (w : Setup) (future : List L1Tx) (tp : TxProcessor) (n_l1 n_l2 : ℕ)
      (txs : List PoolL2Tx) (s : Selection)
      → together a txs ≡ true
      → process_l2_txs c w future tp n_l1 n_l2 txs ≡ (next tt, s)
      → (members a s.unforjable ≡ 0)
        × (((members a s.selected ≡ 0) × (together a s.non_selected ≡ true))
            ⊎ (members a s.non_selected ≡ 0))
  unfolding After Begun count_if
  process_l2_txs-Whole c w future tp n_l1 n_l2 txs s h done =
      let is =
        process_l2_txs-After c w future (Begun-Loops w.config) tp n_l1 n_l2 txs (next tt) s
          (refl, inl (refl, inl (refl, h))) done in
      (
        is.0,
        elim is.1 [
          | inl (e, inl (n, t)) ↦ inl (e, together-none a s.non_selected n)
          | inl (e, inr (x, t)) ↦ inl (e, t)
          | inr (n, t) ↦ inr n
        ],
      )
