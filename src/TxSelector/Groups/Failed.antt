-- ===== src/TxSelector/Groups/Failed.antt =====
-- One more failed group leaves fewer transactions to select from (`filterFailedAtomicGroups`).
use han_hermez_node.Common.Tx.{PoolL2Tx}
use han_hermez_node.TxSelector.State.{FailedAtomicGroup, empty_atomic_group_id}
use han_hermez_node.TxSelector.Groups.{find_failed, filter_failed_atomic_groups}
use han_hermez_node.TxSelector.Step.Partition.{ids}
use han_hermez_node.Prelude.{
  ℕ, ◌+◌, ◌≡◌, refl, ◌≢◌, Bool, none, some, List, [], ◌∷◌, ◌++◌, arith, ◌==◌, if◌then◌else◌,
  Option-cases, length, count_if,
}

module _ (g : FailedAtomicGroup) where
  -- The test of a transaction of the group.
  abbrev pub of_group : ℕ → ℕ → Bool
  of_group tx_id group = group == g.id

  find_failed-append :
      (id : ℕ) (gs : List FailedAtomicGroup)
      → find_failed id (gs ++ g ∷ [])
        ≡ elim (find_failed id gs) [ some x ↦ some x | none ↦ if g.id == id then some g else none ]
  unfolding find_failed
  find_failed-append id [] = refl
  find_failed-append id (x ∷ gs) = ground (arith, find_failed-append id gs)

  -- The transactions that are left are those of the other groups.
  pub filter_failed-append :
      g.id ≢ empty_atomic_group_id
      → (txs : List PoolL2Tx) (gs : List FailedAtomicGroup)
      → length (filter_failed_atomic_groups txs (gs ++ g ∷ [])).0
          + count_if (ids of_group) (filter_failed_atomic_groups txs gs).0
        ≡ length (filter_failed_atomic_groups txs gs).0
  unfolding filter_failed_atomic_groups count_if
  filter_failed-append atomic [] gs = omega arith
  filter_failed-append atomic (tx ∷ txs) gs = ground (
    arith,
    filter_failed-append atomic txs gs,
    find_failed-append tx.atomic_group_id gs,
    Option-cases (find_failed tx.atomic_group_id gs),
  )
