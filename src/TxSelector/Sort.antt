-- ===== src/TxSelector/Sort.antt =====
-- `sortL2Txs` of txselector/txselector.go.
pub mod Partition
pub mod Together
use han_hermez_node.Common.Tx.{PoolL2Tx}
use han_hermez_node.TxSelector.State.{Go}
use han_hermez_node.TxSelector.Groups.{collect, concat}
use han_hermez_node.Prelude.{
  ℕ, ◌+◌, Bool, not, none, some, List, [], ◌∷◌, ◌++◌, ltb, ◌==◌, if◌then◌else◌, lookup,
}

-- `sort.SliceStable`, whose result its order determines.
module _ {A : Type 0} (less : A → A → Bool) where
  unfoldable pub insert_sorted : A → List A → List A
  insert_sorted x [] = x ∷ []
  insert_sorted x (y ∷ ys) = if less y x then y ∷ insert_sorted x ys else x ∷ y ∷ ys

  unfoldable pub slice_stable : List A → List A
  slice_stable [] = []
  slice_stable (x ∷ xs) = insert_sorted x (slice_stable xs)

-- The value of a map under a key, 0 where there is none.
abbrev pub fee_of : ℕ → List (ℕ × ℕ) → ℕ
fee_of id fees = elim (lookup id fees) [ none ↦ 0 | some fee ↦ fee ]

module _ (go : Go) where
  -- The order of the transactions without a group.
  unfoldable pub non_atomic_less : PoolL2Tx → PoolL2Tx → Bool
  non_atomic_less a b =
      if go.float_ne a.absolute_fee b.absolute_fee
      then go.float_gt a.absolute_fee b.absolute_fee
      else if not (a.from_idx == b.from_idx)
      then ltb a.from_idx b.from_idx
      else ltb a.nonce b.nonce

  -- The last three loops of `sortL2Txs`. A group's identifier is that of its first transaction.
  unfoldable pub merge : List (ℕ × ℕ) → List PoolL2Tx → List (ℕ × List PoolL2Tx) → List PoolL2Tx
  merge fees [] groups = concat groups
  merge fees (tx ∷ txs) [] = tx ∷ txs
  merge fees (tx ∷ txs) ((id, l) ∷ groups) =
      if go.float_gt tx.absolute_fee (fee_of id fees)
      then tx ∷ merge fees txs ((id, l) ∷ groups)
      else l ++ merge fees (tx ∷ txs) groups

  -- `sortL2Txs`
  unfoldable pub sort_l2_txs : List PoolL2Tx → List (ℕ × ℕ) → List PoolL2Tx
  sort_l2_txs txs fees =
      let (single, groups) = collect [] txs in
      merge fees (go.sort_slice non_atomic_less single) (
        slice_stable (λ a b. go.float_gt (fee_of a.0 fees) (fee_of b.0 fees))
          (go.range_sort groups))
