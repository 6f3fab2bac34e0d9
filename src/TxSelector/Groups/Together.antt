-- ===== src/TxSelector/Groups/Together.antt =====
-- The transactions of an atomic group stand one behind the other.
use han_hermez_node.Common.Tx.{PoolL2Tx}
use han_hermez_node.TxSelector.Step.Partition.{ids}
use han_hermez_node.Prelude.{
  ℕ, ◌≡◌, refl, Bool, true, List, [], ◌∷◌, ◌++◌, arith, ◌==◌, if◌then◌else◌, count_if,
  count_if-append,
}

module _ (a : ℕ) where
  -- The transactions of the group `a`.
  abbrev pub members : List PoolL2Tx → ℕ
  members = count_if (ids (λ tx_id group. group == a))

  -- Those of the group come first.
  unfoldable pub heads : List PoolL2Tx → Bool
  heads [] = true
  heads (tx ∷ txs) = if tx.atomic_group_id == a then heads txs else members txs == 0

  unfoldable pub together : List PoolL2Tx → Bool
  together [] = true
  together (tx ∷ txs) = if tx.atomic_group_id == a then heads txs else together txs

  pub heads-none : (txs : List PoolL2Tx) → members txs ≡ 0 → heads txs ≡ true
  unfolding heads count_if
  heads-none [] e = refl
  heads-none (tx ∷ txs) e = ground (arith, e, heads-none txs)

  pub together-none : (txs : List PoolL2Tx) → members txs ≡ 0 → together txs ≡ true
  unfolding together count_if
  together-none [] e = refl
  together-none (tx ∷ txs) e = ground (arith, e, together-none txs)

  heads-append :
      (xs ys : List PoolL2Tx) → heads xs ≡ true → members ys ≡ 0 → heads (xs ++ ys) ≡ true
  unfolding heads count_if
  heads-append [] ys h e = heads-none ys e
  heads-append (x ∷ xs) ys h e =
      ground
        (arith, h, e, heads-append xs ys, count_if-append (ids (λ tx_id group. group == a)) xs ys)

  -- Where `xs` has none of the group, or `ys` has none.
  pub together-append-right :
      (xs ys : List PoolL2Tx) → members xs ≡ 0 → together ys ≡ true → together (xs ++ ys) ≡ true
  unfolding together count_if
  together-append-right [] ys e h = h
  together-append-right (x ∷ xs) ys e h = ground (arith, h, e, together-append-right xs ys)

  pub together-append-left :
      (xs ys : List PoolL2Tx) → together xs ≡ true → members ys ≡ 0 → together (xs ++ ys) ≡ true
  unfolding together count_if
  together-append-left [] ys h e = together-none ys e
  together-append-left (x ∷ xs) ys h e =
      ground (arith, h, e, together-append-left xs ys, heads-append xs ys)
