-- ===== src/TxSelector/Groups.antt =====
-- Atomic groups (`filterFailedAtomicGroups`, `filterInvalidAtomicGroups`, `isAtomicGroupValid`,
-- `calculateAtomicGroupsAverageFee` and `setInfoForFailedAtomicTx` of txselector/txselector.go, and
-- `RequestOffset2RelativePosition` of api/atomicpool.go).
pub mod Partition
pub mod Failed
pub mod Together
pub mod Whole
use han_hermez_node.Common.Tx.{PoolL2Tx}
use han_hermez_node.TxSelector.State.{
  Go, FailedAtomicGroup, empty_atomic_group_id, err_invalid_atomic_group,
}
use han_hermez_node.Prelude.{
  ℕ, zero, suc, ◌+◌, ◌-◌, Bool, true, false, ◌&&◌, Option, none, some, List, [], ◌∷◌, ◌++◌, map,
  ltb, leb, ◌==◌, if◌then◌else◌, Error, Result, ok, err, lookup, insert,
}

-- The first failed group with the identifier.
unfoldable pub find_failed : ℕ → List FailedAtomicGroup → Option FailedAtomicGroup
find_failed id [] = none
find_failed id (g ∷ gs) = if g.id == id then some g else find_failed id gs

-- `setInfoForFailedAtomicTx`: the code of the result.
unfoldable pub set_info_for_failed_atomic_tx : Bool → ℕ → ℕ
set_info_for_failed_atomic_tx is_origin reason =
    if is_origin then reason else err_invalid_atomic_group

-- `filterFailedAtomicGroups`
unfoldable pub filter_failed_atomic_groups :
    List PoolL2Tx → List FailedAtomicGroup → List PoolL2Tx × List PoolL2Tx
filter_failed_atomic_groups [] gs = ([], [])
filter_failed_atomic_groups (tx ∷ txs) gs =
    let (process, out) = filter_failed_atomic_groups txs gs in
    if tx.atomic_group_id == empty_atomic_group_id
    then (tx ∷ process, out)
    else elim (find_failed tx.atomic_group_id gs) [
      | none ↦ (tx ∷ process, out)
      | some g ↦ (
        process,
        record tx {
          error_code = set_info_for_failed_atomic_tx (tx.tx_id == g.failed_tx_id) g.reason;
        }
            ∷ out,
      )
    ]

-- The map from a group to its transactions, in the order of the list.
unfoldable pub add_to_group : PoolL2Tx → List (ℕ × List PoolL2Tx) → List (ℕ × List PoolL2Tx)
add_to_group tx [] = (tx.atomic_group_id, tx ∷ []) ∷ []
add_to_group tx ((id, l) ∷ groups) =
    if id == tx.atomic_group_id
    then (id, l ++ tx ∷ []) ∷ groups
    else (id, l) ∷ add_to_group tx groups

-- The transactions of groups, one group after the other.
unfoldable pub concat : List (ℕ × List PoolL2Tx) → List PoolL2Tx
concat [] = []
concat ((id, l) ∷ groups) = l ++ concat groups

-- The transactions without a group, and the groups, which the loops of `filterInvalidAtomicGroups`
-- and of `sortL2Txs` both collect.
unfoldable pub collect :
    List (ℕ × List PoolL2Tx) → List PoolL2Tx → List PoolL2Tx × List (ℕ × List PoolL2Tx)
collect groups [] = ([], groups)
collect groups (tx ∷ txs) =
    if tx.atomic_group_id == empty_atomic_group_id
    then (let (single, all) = collect groups txs in (tx ∷ single, all))
    else collect (add_to_group tx groups) txs

-- `RequestOffset2RelativePosition`: how far ahead and how far behind.
unfoldable pub request_offset_2_relative_position : ℕ → Result (ℕ × ℕ)
request_offset_2_relative_position n =
    if n == 0
    then err Error.txs_not_atomic
    else if leb n 3
    then ok (n, 0)
    else if leb n 7
    then ok (0, 8 - n)
    else err Error.invalid_rq_offset

unfoldable pub same_amount : Option ℕ → ℕ → Bool
same_amount (some rq) amount = rq == amount
same_amount none amount = false

-- The requested fields are those of the requested transaction. Its amount is never nil.
unfoldable pub matches_request : PoolL2Tx → PoolL2Tx → Bool
matches_request tx rq =
    (tx.rq_from_idx == rq.from_idx
      && tx.rq_to_idx == rq.to_idx
      && tx.rq_to_eth_addr == rq.to_eth_addr
      && tx.rq_to_bjj == rq.to_bjj
      && tx.rq_token_id == rq.token_id
      && tx.rq_fee == rq.fee
      && tx.rq_nonce == rq.nonce)
    && same_amount tx.rq_amount rq.amount

unfoldable pub nth : List PoolL2Tx → ℕ → Option PoolL2Tx
nth [] i = none
nth (x ∷ xs) zero = some x
nth (x ∷ xs) (suc i) = nth xs i

-- The requested transaction, by its position in the group.
unfoldable pub requested_tx : List PoolL2Tx → ℕ → ℕ → Option PoolL2Tx
requested_tx group i offset = elim (request_offset_2_relative_position offset) [
  | err _ ↦ none
  | ok (ahead, behind) ↦ if ltb (i + ahead) behind then none else nth group (i + ahead - behind)
]

-- The loop of `isAtomicGroupValid` from the position `i`.
unfoldable pub valid_from : List PoolL2Tx → ℕ → List PoolL2Tx → Bool
valid_from group i [] = true
valid_from group i (tx ∷ txs) =
    let rest = valid_from group (i + 1) txs in
    elim (requested_tx group i tx.rq_offset) [
      | none ↦ false
      | some rq ↦ matches_request tx rq && rest
    ]

-- `isAtomicGroupValid`
unfoldable pub is_atomic_group_valid : List PoolL2Tx → Bool
unfolding valid_from
is_atomic_group_valid group = valid_from group 0 group

unfoldable pub mark_invalid : PoolL2Tx → PoolL2Tx
mark_invalid tx = record tx { error_code = err_invalid_atomic_group }

-- The second loop of `filterInvalidAtomicGroups`, over the groups in the order of the map.
unfoldable pub split_groups : List (ℕ × List PoolL2Tx) → List PoolL2Tx × List PoolL2Tx
split_groups [] = ([], [])
split_groups ((id, l) ∷ groups) =
    let (process, out) = split_groups groups in
    if is_atomic_group_valid l then (l ++ process, out) else (process, map mark_invalid l ++ out)

module _ (go : Go) where
  -- `filterInvalidAtomicGroups`
  unfoldable pub filter_invalid_atomic_groups : List PoolL2Tx → List PoolL2Tx × List PoolL2Tx
  filter_invalid_atomic_groups txs =
      let (single, groups) = collect [] txs in
      let (process, out) = split_groups (go.range_filter groups) in (single ++ process, out)

  -- The first loop of `calculateAtomicGroupsAverageFee`: the sum and the number of a group.
  unfoldable pub sum_fees : List PoolL2Tx → List (ℕ × (ℕ × ℕ)) → List (ℕ × (ℕ × ℕ))
  sum_fees [] m = m
  sum_fees (tx ∷ txs) m =
      if tx.atomic_group_id == empty_atomic_group_id
      then sum_fees txs m
      else sum_fees txs (elim (lookup tx.atomic_group_id m) [
        | none ↦ insert tx.atomic_group_id (tx.absolute_fee, 1) m
        | some (fee, n) ↦ insert tx.atomic_group_id (go.float_add fee tx.absolute_fee, n + 1) m
      ])

  -- `calculateAtomicGroupsAverageFee`
  unfoldable pub calculate_atomic_groups_average_fee : List PoolL2Tx → List (ℕ × ℕ)
  calculate_atomic_groups_average_fee txs =
      map (λ e. (e.0, go.float_div e.1.0 e.1.1)) (sum_fees txs [])
