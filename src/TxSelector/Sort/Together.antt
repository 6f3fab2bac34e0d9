-- ===== src/TxSelector/Sort/Together.antt =====
-- `sortL2Txs` of txselector/txselector.go leaves an atomic group's transactions one behind the
-- other.
use han_hermez_node.Common.Tx.{PoolL2Tx}
use han_hermez_node.TxSelector.State.{Go, empty_atomic_group_id}
use han_hermez_node.TxSelector.Groups.{collect, concat}
use han_hermez_node.TxSelector.Groups.Partition.{Permutes}
use han_hermez_node.TxSelector.Groups.Together.{
  members, heads, together, together-none, together-append-right, together-append-left,
}
use han_hermez_node.TxSelector.Sort.{merge, sort_l2_txs, slice_stable, fee_of, non_atomic_less}
use han_hermez_node.TxSelector.Sort.Partition.{merge-count, slice_stable-Permᴰ}
use han_hermez_node.TxSelector.Groups.Whole.{
  is_member, has_key, IsGrouped, IsGrouped-Permᴰ, IsGrouped-tail, collect-IsGrouped, no_key-members,
}
use mathlib.Core.List.{Permᴰ}
use han_hermez_node.Prelude.{
  ℕ, ◌≡◌, refl, ◌∙◌, ◌≢◌, inl, inr, true, List, [], ◌∷◌, ◌++◌, arith, ◌==◌, Bool-cases, length,
  count_if, count_if_le, count_if-Permᴰ,
}

module _ (a : ℕ) (atomic : a ≢ empty_atomic_group_id) where
  all-heads : (l : List PoolL2Tx) → members a l ≡ length l → heads a l ≡ true
  unfolding heads count_if
  all-heads [] e = refl
  all-heads (x ∷ l) e = ground (arith, e, all-heads l, count_if_le (is_member a atomic) l)

  all-together : (l : List PoolL2Tx) → members a l ≡ length l → together a l ≡ true
  unfolding together count_if
  all-together [] e = refl
  all-together (x ∷ l) e = ground (arith, e, all-heads l, count_if_le (is_member a atomic) l)

  -- A group before what has none of it, or is not it.
  add_group-together :
      (id : ℕ) (l : List PoolL2Tx) (m : List (ℕ × List PoolL2Tx)) (rest : List PoolL2Tx)
      → IsGrouped a atomic ((id, l) ∷ m)
      → (count_if (has_key a atomic) m ≡ 0 → members a rest ≡ 0)
      → together a rest ≡ true
      → together a (l ++ rest) ≡ true
  unfolding count_if
  add_group-together id l m rest h gone t = elim (Bool-cases (id == a)) [
    | inl is ↦
        together-append-left a l rest (all-together l (ground (arith, h.good, is)))
          (gone (ground (arith, h.once, is)))
    | inr n ↦ together-append-right a l rest (ground (arith, h.good, n)) t
  ]

  concat-together :
      (m : List (ℕ × List PoolL2Tx)) → IsGrouped a atomic m → together a (concat m) ≡ true
  unfolding concat together
  concat-together [] h = refl
  concat-together ((id, l) ∷ m) h =
      add_group-together id l m (concat m) h
        (λ e. no_key-members a atomic m (IsGrouped-tail a atomic (id, l) m h) e)
        (concat-together m (IsGrouped-tail a atomic (id, l) m h))

  merge-members :
      (go : Go) (fees : List (ℕ × ℕ)) (txs : List PoolL2Tx) (m : List (ℕ × List PoolL2Tx))
      → members a txs ≡ 0
      → IsGrouped a atomic m
      → together a (merge go fees txs m) ≡ true
  unfolding merge count_if together
  merge-members go fees [] m e h = concat-together m h
  merge-members go fees (tx ∷ txs) [] e h = ground (arith, e, together-none a txs)
  merge-members go fees (tx ∷ txs) ((id, l) ∷ m) e h =
      elim (Bool-cases (go.float_gt tx.absolute_fee (fee_of id fees))) [
        | inl gt ↦
            rw gt (ground (arith, e, merge-members go fees txs ((id, l) ∷ m) (ground (arith, e)) h))
        | inr le ↦ rw le (
            add_group-together id l m (merge go fees (tx ∷ txs) m) h
              (λ k. ground (
                arith,
                e,
                no_key-members a atomic m (IsGrouped-tail a atomic (id, l) m h) k,
                merge-count go (λ tx_id group. group == a) fees (tx ∷ txs) m,
              ))
              (merge-members go fees (tx ∷ txs) m e (IsGrouped-tail a atomic (id, l) m h)))
      ]

  -- Where `sort.Slice` and the loop over the map of groups permute: in the list that `sortL2Txs`
  -- returns, the transactions of each atomic group stand one behind the other, whatever the fees are.
  pub sort_l2_txs-together :
      (go : Go)
      → Permutes go
      → (txs : List PoolL2Tx) (fees : List (ℕ × ℕ)) → together a (sort_l2_txs go txs fees) ≡ true
  unfolding sort_l2_txs count_if
  sort_l2_txs-together go laws txs fees =
      let (single, groups) = collect [] txs in
      let less = λ (x y : ℕ × List PoolL2Tx). go.float_gt (fee_of x.0 fees) (fee_of y.0 fees) in
      let is = collect-IsGrouped a atomic [] txs (record { once = omega arith; good = refl }) in
      merge-members go fees (go.sort_slice (non_atomic_less go) single)
        (slice_stable less (go.range_sort groups))
        (count_if-Permᴰ (is_member a atomic) (laws.sorts (non_atomic_less go) single) ∙ is.0)
        (IsGrouped-Permᴰ a atomic
          (Permᴰ.trans (slice_stable-Permᴰ less (go.range_sort groups)) (laws.ranges_sort groups))
          is.1)
