-- ===== src/TxSelector/Groups/Partition.antt =====
-- The filters of txselector/txselector.go keep every transaction, in one of their two results.
use han_hermez_node.Common.Tx.{PoolL2Tx}
use han_hermez_node.TxSelector.State.{Go, FailedAtomicGroup, empty_atomic_group_id}
use han_hermez_node.TxSelector.Groups.{
  find_failed, filter_failed_atomic_groups, add_to_group, collect, split_groups, mark_invalid,
  filter_invalid_atomic_groups, concat,
}
use han_hermez_node.TxSelector.Step.Partition.{ids}
use mathlib.Core.List.{Permᴰ}
use han_hermez_node.Prelude.{
  ℕ, ◌+◌, ◌≡◌, refl, ap, ◌∙◌, inl, inr, Bool, List, [], ◌∷◌, ◌++◌, map, arith, ◌==◌, Bool-cases,
  Option-cases, count_if, count_if-append,
}

-- What the documentation of `sort.Slice` and of `range` over a map says: a sort permutes the slice,
-- and a loop over a map visits each entry once.
pub record Permutes (go : Go) : Type 0 where
  pub sorts :
      (less : PoolL2Tx → PoolL2Tx → Bool) (l : List PoolL2Tx) → Permᴰ (go.sort_slice less l) l
  pub ranges_filter : (m : List (ℕ × List PoolL2Tx)) → Permᴰ (go.range_filter m) m
  pub ranges_sort : (m : List (ℕ × List PoolL2Tx)) → Permᴰ (go.range_sort m) m

module _ (test : ℕ → ℕ → Bool) where
  abbrev number : List PoolL2Tx → ℕ
  number = count_if (ids test)

  pub filter_failed-count :
      (txs : List PoolL2Tx) (gs : List FailedAtomicGroup)
      → number (filter_failed_atomic_groups txs gs).0
          + number (filter_failed_atomic_groups txs gs).1
        ≡ number txs
  unfolding filter_failed_atomic_groups count_if
  filter_failed-count [] gs = omega arith
  filter_failed-count (tx ∷ txs) gs =
      ground (arith, filter_failed-count txs gs, Option-cases (find_failed tx.atomic_group_id gs))

  add_to_group-count :
      (tx : PoolL2Tx) (groups : List (ℕ × List PoolL2Tx))
      → number (concat (add_to_group tx groups)) ≡ number (tx ∷ []) + number (concat groups)
  unfolding add_to_group concat count_if
  add_to_group-count tx [] = ground arith
  add_to_group-count tx ((id, l) ∷ groups) = ground (
    arith,
    add_to_group-count tx groups,
    count_if-append (ids test) l (tx ∷ []),
    count_if-append (ids test) (l ++ tx ∷ []) (concat groups),
    count_if-append (ids test) l (concat groups),
    count_if-append (ids test) l (concat (add_to_group tx groups)),
  )

  pub collect-count :
      (groups : List (ℕ × List PoolL2Tx)) (txs : List PoolL2Tx)
      → number (collect groups txs).0 + number (concat (collect groups txs).1)
        ≡ number (concat groups) + number txs
  unfolding collect count_if
  collect-count groups [] = omega arith
  collect-count groups (tx ∷ txs) =
      elim (Bool-cases (tx.atomic_group_id == empty_atomic_group_id)) [
        | inl e ↦ ground (arith, e, collect-count groups txs)
        | inr n ↦
            ground
              (arith, n, collect-count (add_to_group tx groups) txs, add_to_group-count tx groups)
      ]

  pub mark_invalid-count : (l : List PoolL2Tx) → number (map mark_invalid l) ≡ number l
  unfolding mark_invalid count_if
  mark_invalid-count [] = refl
  mark_invalid-count (tx ∷ l) = ground (arith, mark_invalid-count l)

  pub split_groups-count :
      (groups : List (ℕ × List PoolL2Tx))
      → number (split_groups groups).0 + number (split_groups groups).1 ≡ number (concat groups)
  unfolding split_groups concat count_if
  split_groups-count [] = omega arith
  split_groups-count ((id, l) ∷ groups) =
      let (process, out) = split_groups groups in
      ground (
        arith,
        split_groups-count groups,
        count_if-append (ids test) l (concat groups),
        count_if-append (ids test) l process,
        count_if-append (ids test) (map mark_invalid l) out,
        mark_invalid-count l,
      )

  pub concat-Permᴰ :
      {m n : List (ℕ × List PoolL2Tx)} → Permᴰ m n → number (concat m) ≡ number (concat n)
  unfolding concat
  concat-Permᴰ Permᴰ.nil = refl
  concat-Permᴰ (Permᴰ.cons {a} {b} {l₁} {l₂} e p) = ground (
    arith,
    ap (λ x. number x.1) e,
    concat-Permᴰ p,
    count_if-append (ids test) a.1 (concat l₁),
    count_if-append (ids test) b.1 (concat l₂),
  )
  concat-Permᴰ (Permᴰ.swap {a} {b} {a'} {b'} {l} e f) = ground (
    arith,
    ap (λ x. number x.1) e,
    ap (λ x. number x.1) f,
    count_if-append (ids test) a.1 (b.1 ++ concat l),
    count_if-append (ids test) b.1 (concat l),
    count_if-append (ids test) a'.1 (b'.1 ++ concat l),
    count_if-append (ids test) b'.1 (concat l),
  )
  concat-Permᴰ (Permᴰ.trans p q) = concat-Permᴰ p ∙ concat-Permᴰ q

  pub filter_invalid-count :
      (go : Go)
      → Permutes go
      → (txs : List PoolL2Tx)
      → number (filter_invalid_atomic_groups go txs).0
          + number (filter_invalid_atomic_groups go txs).1
        ≡ number txs
  unfolding filter_invalid_atomic_groups concat count_if
  filter_invalid-count go laws txs =
      let (single, groups) = collect [] txs in
      let (process, out) = split_groups (go.range_filter groups) in
      ground (
        arith,
        collect-count [] txs,
        split_groups-count (go.range_filter groups),
        concat-Permᴰ (laws.ranges_filter groups),
        count_if-append (ids test) single process,
      )
