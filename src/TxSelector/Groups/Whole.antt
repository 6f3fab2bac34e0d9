-- ===== src/TxSelector/Groups/Whole.antt =====
-- The filters of txselector/txselector.go do not take an atomic group apart.
use han_hermez_node.Common.Tx.{PoolL2Tx}
use han_hermez_node.TxSelector.State.{Go, FailedAtomicGroup, empty_atomic_group_id}
use han_hermez_node.TxSelector.Groups.{
  find_failed, filter_failed_atomic_groups, add_to_group, collect, split_groups, mark_invalid,
  is_atomic_group_valid, filter_invalid_atomic_groups, concat,
}
use han_hermez_node.TxSelector.Groups.Partition.{Permutes, mark_invalid-count, split_groups-count}
use han_hermez_node.TxSelector.Groups.Together.{members}
use han_hermez_node.TxSelector.Step.Partition.{ids}
use mathlib.Core.List.{Permᴰ}
use han_hermez_node.Prelude.{
  ℕ, ◌≤◌, ◌≡◌, refl, ap, ◌∙◌, ◌≢◌, ◌⊎◌, inl, inr, Bool, false, not, none, some, List, [], ◌∷◌, map,
  arith, ◌==◌, if◌then◌else◌, Bool-cases, Option-cases, length, length-append, count_if,
  count_if-append, count_if-Permᴰ,
}

module _ (a : ℕ) (atomic : a ≢ empty_atomic_group_id) where
  abbrev pub is_member : PoolL2Tx → Bool
  is_member = ids (λ tx_id group. group == a)

  filter_failed-out :
      (txs : List PoolL2Tx) (gs : List FailedAtomicGroup)
      → find_failed a gs ≡ none
      → members a (filter_failed_atomic_groups txs gs).1 ≡ 0
  unfolding filter_failed_atomic_groups count_if
  filter_failed-out [] gs e = refl
  filter_failed-out (tx ∷ txs) gs e = elim (Bool-cases (tx.atomic_group_id == a)) [
    | inl is ↦
        let same : tx.atomic_group_id ≡ a = ground (arith, is) in
        let found : find_failed tx.atomic_group_id gs ≡ none =
          ap (λ i. find_failed i gs) same ∙ e in
        ground (arith, found, filter_failed-out txs gs e)
    | inr n ↦
        ground
          (arith, n, filter_failed-out txs gs e, Option-cases (find_failed tx.atomic_group_id gs))
  ]

  filter_failed-left :
      (txs : List PoolL2Tx) (gs : List FailedAtomicGroup) (g : FailedAtomicGroup)
      → find_failed a gs ≡ some g
      → members a (filter_failed_atomic_groups txs gs).0 ≡ 0
  unfolding filter_failed_atomic_groups count_if
  filter_failed-left [] gs g e = refl
  filter_failed-left (tx ∷ txs) gs g e = elim (Bool-cases (tx.atomic_group_id == a)) [
    | inl is ↦
        let same : tx.atomic_group_id ≡ a = ground (arith, is) in
        let found : find_failed tx.atomic_group_id gs ≡ some g =
          ap (λ i. find_failed i gs) same ∙ e in
        ground (arith, found, filter_failed-left txs gs g e, same, atomic)
    | inr n ↦
        ground (
          arith,
          n,
          filter_failed-left txs gs g e,
          Option-cases (find_failed tx.atomic_group_id gs),
        )
  ]

  -- The failed groups take all of the group or nothing.
  pub filter_failed-Whole :
      (txs : List PoolL2Tx) (gs : List FailedAtomicGroup)
      → (members a (filter_failed_atomic_groups txs gs).0 ≡ 0)
        ⊎ (members a (filter_failed_atomic_groups txs gs).1 ≡ 0)
  filter_failed-Whole txs gs = elim (Option-cases (find_failed a gs)) [
    | inl e ↦ inr (filter_failed-out txs gs e)
    | inr (g, e) ↦ inl (filter_failed-left txs gs g e)
  ]

  -- An entry of the map whose list is not that of its group.
  abbrev pub is_bad : ℕ × List PoolL2Tx → Bool
  is_bad e = if e.0 == a then not (members a e.1 == length e.1) else not (members a e.1 == 0)

  abbrev pub has_key : ℕ × List PoolL2Tx → Bool
  has_key e = e.0 == a

  -- The map has the group at most once, and every list is that of its group.
  pub record IsGrouped (m : List (ℕ × List PoolL2Tx)) : Type 0 where
    pub once : count_if has_key m ≤ 1
    pub good : count_if is_bad m ≡ 0

  pub IsGrouped-Permᴰ : {m n : List (ℕ × List PoolL2Tx)} → Permᴰ m n → IsGrouped n → IsGrouped m
  IsGrouped-Permᴰ p h = record {
    once = ground (arith, count_if-Permᴰ has_key p, h.once);
    good = count_if-Permᴰ is_bad p ∙ h.good;
  }

  pub IsGrouped-tail :
      (e : ℕ × List PoolL2Tx) (m : List (ℕ × List PoolL2Tx)) → IsGrouped (e ∷ m) → IsGrouped m
  unfolding count_if
  IsGrouped-tail e m h = record { once = ground (arith, h.once); good = ground (arith, h.good) }

  add_to_group-other :
      (tx : PoolL2Tx) (m : List (ℕ × List PoolL2Tx))
      → (tx.atomic_group_id == a) ≡ false
      → count_if has_key (add_to_group tx m) ≡ count_if has_key m
  unfolding add_to_group count_if
  add_to_group-other tx [] n = ground (arith, n)
  add_to_group-other tx ((id, l) ∷ m) n = ground (arith, n, add_to_group-other tx m n)

  add_to_group-once :
      (tx : PoolL2Tx) (m : List (ℕ × List PoolL2Tx))
      → count_if has_key m ≤ 1
      → count_if has_key (add_to_group tx m) ≤ 1
  unfolding add_to_group count_if
  add_to_group-once tx [] h = ground arith
  add_to_group-once tx ((id, l) ∷ m) h =
      ground (arith, h, add_to_group-once tx m, add_to_group-other tx m)

  add_to_group-good :
      (tx : PoolL2Tx) (m : List (ℕ × List PoolL2Tx))
      → count_if is_bad m ≡ 0
      → count_if is_bad (add_to_group tx m) ≡ 0
  unfolding add_to_group count_if
  add_to_group-good tx [] h = ground arith
  add_to_group-good tx ((id, l) ∷ m) h = ground (
    arith,
    h,
    add_to_group-good tx m,
    count_if-append is_member l (tx ∷ []),
    length-append l (tx ∷ []),
  )

  add_to_group-IsGrouped :
      (tx : PoolL2Tx) (m : List (ℕ × List PoolL2Tx)) → IsGrouped m → IsGrouped (add_to_group tx m)
  add_to_group-IsGrouped tx m h = record {
    once = add_to_group-once tx m h.once;
    good = add_to_group-good tx m h.good;
  }

  pub collect-IsGrouped :
      (m : List (ℕ × List PoolL2Tx)) (txs : List PoolL2Tx)
      → IsGrouped m
      → (members a (collect m txs).0 ≡ 0) × IsGrouped (collect m txs).1
  unfolding collect count_if
  collect-IsGrouped m [] h = (refl, h)
  collect-IsGrouped m (tx ∷ txs) h =
      elim (Bool-cases (tx.atomic_group_id == empty_atomic_group_id)) [
        | inl e ↦
            let is = collect-IsGrouped m txs h in
            (ground (arith, is.0, e, atomic), rw (e, collect) is.1)
        | inr n ↦
            rw (n, collect)
              (collect-IsGrouped (add_to_group tx m) txs (add_to_group-IsGrouped tx m h))
      ]

  -- Without an entry for the group there is none of it.
  pub no_key-members :
      (m : List (ℕ × List PoolL2Tx))
      → IsGrouped m
      → count_if has_key m ≡ 0
      → members a (concat m) ≡ 0
  unfolding concat count_if
  no_key-members [] h e = refl
  no_key-members ((id, l) ∷ m) h e =
      let rest = no_key-members m (IsGrouped-tail (id, l) m h) (ground (arith, e)) in
      ground (arith, rest, h.good, e, count_if-append is_member l (concat m))

  -- The invalid groups are all of the group or nothing of it.
  split_groups-Whole :
      (m : List (ℕ × List PoolL2Tx))
      → IsGrouped m
      → (members a (split_groups m).0 ≡ 0) ⊎ (members a (split_groups m).1 ≡ 0)
  unfolding split_groups count_if
  split_groups-Whole [] h = inl refl
  split_groups-Whole ((id, l) ∷ m) h =
      let tail = IsGrouped-tail (id, l) m h in
      let rest = split_groups-Whole m tail in
      let (process, out) = split_groups m in
      let of = λ (xs ys : List PoolL2Tx). count_if-append is_member xs ys in
      elim (Bool-cases (id == a)) [
        | inl is ↦
            let gone : members a (concat m) ≡ 0 =
              no_key-members m tail (ground (arith, h.once, is)) in
            let parts = split_groups-count (λ tx_id group. group == a) m in
            elim (Bool-cases (is_atomic_group_valid l)) [
              | inl v ↦ inr (rw v (omega (arith, gone, parts)))
              | inr v ↦ inl (rw v (omega (arith, gone, parts)))
            ]
        | inr n ↦
            let none_here : members a l ≡ 0 = ground (arith, h.good, n) in
            let marked = mark_invalid-count (λ tx_id group. group == a) l in
            elim (Bool-cases (is_atomic_group_valid l)) [
              | inl v ↦ elim rest [
                | inl e ↦ inl (rw v (omega (arith, none_here, e, of l process)))
                | inr e ↦ inr (rw v e)
              ]
              | inr v ↦ elim rest [
                | inl e ↦ inl (rw v e)
                | inr e ↦
                    inr (rw v (omega (arith, none_here, marked, e, of (map mark_invalid l) out)))
              ]
            ]
      ]

  pub filter_invalid-Whole :
      (go : Go)
      → Permutes go
      → (txs : List PoolL2Tx)
      → (members a (filter_invalid_atomic_groups go txs).0 ≡ 0)
        ⊎ (members a (filter_invalid_atomic_groups go txs).1 ≡ 0)
  unfolding filter_invalid_atomic_groups count_if
  filter_invalid-Whole go laws txs =
      let (single, groups) = collect [] txs in
      let is = collect-IsGrouped [] txs (record { once = omega arith; good = refl }) in
      let process = (split_groups (go.range_filter groups)).0 in
      elim (split_groups-Whole (go.range_filter groups)
        (IsGrouped-Permᴰ (laws.ranges_filter groups) is.1)) [
          | inl e ↦ inl (omega (arith, e, is.0, count_if-append is_member single process))
          | inr e ↦ inr e
        ]
