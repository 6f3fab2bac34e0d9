-- ===== src/TxSelector/Sort/Partition.antt =====
-- `sortL2Txs` of txselector/txselector.go neither drops nor repeats a transaction.
use han_hermez_node.Common.Tx.{PoolL2Tx}
use han_hermez_node.TxSelector.State.{Go}
use han_hermez_node.TxSelector.Groups.{collect, concat}
use han_hermez_node.TxSelector.Groups.Partition.{Permutes, collect-count, concat-Permᴰ}
use han_hermez_node.TxSelector.Step.Partition.{ids}
use han_hermez_node.TxSelector.Sort.{
  insert_sorted, slice_stable, merge, sort_l2_txs, fee_of, non_atomic_less,
}
use mathlib.Core.List.{Permᴰ}
use mathlib.Core.List.Permᴰ
use han_hermez_node.Prelude.{
  ℕ, ◌+◌, ◌≡◌, refl, inl, inr, Bool, List, [], ◌∷◌, arith, Bool-cases, count_if, count_if-append,
  count_if-Permᴰ,
}

module _ {A : Type 0} (less : A → A → Bool) where
  insert_sorted-Permᴰ : (x : A) (l : List A) → Permᴰ (insert_sorted less x l) (x ∷ l)
  unfolding insert_sorted
  insert_sorted-Permᴰ x [] = Permᴰ.refl (x ∷ [])
  insert_sorted-Permᴰ x (y ∷ ys) = elim (Bool-cases (less y x)) [
    | inl e ↦ rw e (Permᴰ.trans (Permᴰ.cons refl (insert_sorted-Permᴰ x ys)) (Permᴰ.swap refl refl))
    | inr n ↦ rw n (Permᴰ.refl (x ∷ y ∷ ys))
  ]

  -- A stable sort permutes the list.
  pub slice_stable-Permᴰ : (l : List A) → Permᴰ (slice_stable less l) l
  unfolding slice_stable
  slice_stable-Permᴰ [] = Permᴰ.nil
  slice_stable-Permᴰ (x ∷ l) =
      Permᴰ.trans (insert_sorted-Permᴰ x (slice_stable less l))
        (Permᴰ.cons refl (slice_stable-Permᴰ l))

module _ (go : Go) (test : ℕ → ℕ → Bool) where
  abbrev number : List PoolL2Tx → ℕ
  number = count_if (ids test)

  pub merge-count :
      (fees : List (ℕ × ℕ)) (txs : List PoolL2Tx) (groups : List (ℕ × List PoolL2Tx))
      → number (merge go fees txs groups) ≡ number txs + number (concat groups)
  unfolding merge concat count_if
  merge-count fees [] groups = omega arith
  merge-count fees (tx ∷ txs) [] = omega arith
  merge-count fees (tx ∷ txs) ((id, l) ∷ groups) = ground (
    arith,
    merge-count fees txs ((id, l) ∷ groups),
    merge-count fees (tx ∷ txs) groups,
    count_if-append (ids test) l (merge go fees (tx ∷ txs) groups),
    count_if-append (ids test) l (concat groups),
  )

  -- Where `sort.Slice` and the loop over the map of groups permute: for every test of the
  -- identifiers of a transaction and of its group, as many transactions of the sorted list pass it as
  -- of the list that `sortL2Txs` is given, whatever the fees of the groups are.
  pub sort_l2_txs-count :
      Permutes go
      → (txs : List PoolL2Tx) (fees : List (ℕ × ℕ)) → number (sort_l2_txs go txs fees) ≡ number txs
  unfolding sort_l2_txs concat count_if
  sort_l2_txs-count laws txs fees =
      let (single, groups) = collect [] txs in
      let less = λ (a b : ℕ × List PoolL2Tx). go.float_gt (fee_of a.0 fees) (fee_of b.0 fees) in
      let sorted = slice_stable less (go.range_sort groups) in
      ground (
        arith,
        merge-count fees (go.sort_slice (non_atomic_less go) single) sorted,
        count_if-Permᴰ (ids test) (laws.sorts (non_atomic_less go) single),
        concat-Permᴰ test (slice_stable-Permᴰ less (go.range_sort groups)),
        concat-Permᴰ test (laws.ranges_sort groups),
        collect-count test [] txs,
      )
