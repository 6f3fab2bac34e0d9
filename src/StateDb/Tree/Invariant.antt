-- ===== src/StateDb/Tree/Invariant.antt =====
-- The invariant of an account storage (db/statedb/statedb.go): every index has one leaf, and the
-- bytes stored under the leaf's hash are those of an account with that hash.
use han_hermez_node.Bytes.{of_be}
use han_hermez_node.Crypto.{Crypto, CryptoLaws}
use han_hermez_node.Common.Account.{Account, hash_value}
use han_hermez_node.Common.Account.RoundTrip.{leaf}
use han_hermez_node.Common.Account.Hash.{
  hash_value_fits, hash_value-injective, leaf_element-balance,
}
use han_hermez_node.StateDb.Tree.{TreeDb}
use han_hermez_node.Prelude.{
  ℕ, ◌+◌, ◌≡◌, refl, sym, ap, ◌∙◌, subst, inl, inr, Option, none, some, List, [], ◌∷◌, arith, ◌==◌,
  ==_iff, Bool-cases, slice, ok, lookup, insert, lookup-insert, sum_values,
}

module _ (c : Crypto) where
  -- A hash under which the bytes of an account with that hash are stored.
  abbrev pub Resolves : List (ℕ × List ℕ) → ℕ → Type 0
  Resolves lb v = (a : Account) × (hash_value c a ≡ ok v) × (lookup v lb ≡ some (leaf c a))

  abbrev pub AllResolve : List (ℕ × List ℕ) → List (ℕ × ℕ) → Type 0
  AllResolve lb [] = Unit
  AllResolve lb ((i, v) ∷ m) = Resolves lb v × (lookup i m ≡ none) × AllResolve lb m

  -- The balance in the leaf with a hash, and the sum of the balances of all accounts.
  abbrev leaf_balance : Option (List ℕ) → ℕ
  leaf_balance none = 0
  leaf_balance (some b) = of_be (slice b 32 64)

  unfoldable pub balance_at : List (ℕ × List ℕ) → ℕ → ℕ
  balance_at lb v = leaf_balance (lookup v lb)

  abbrev pub balances : List (ℕ × List ℕ) → List (ℕ × ℕ) → ℕ
  balances lb m = sum_values (balance_at lb) m

  unfoldable pub total : TreeDb → ℕ
  total t = balances t.leaf_bytes t.idx_leaf

  pub record IsValid (t : TreeDb) : Type 0 where
    pub resolve : AllResolve t.leaf_bytes t.idx_leaf

  -- A new leaf, whose hash may be that of leaves which are stored already.
  module _ (laws : CryptoLaws c) (a : Account) {h : ℕ} (hashed : hash_value c a ≡ ok h)
      (lb : List (ℕ × List ℕ)) where
    Resolves-insert : (v : ℕ) → Resolves lb v → Resolves (insert h (leaf c a) lb) v
    Resolves-insert v (b, hb, found) = elim (Bool-cases (h == v)) [
      | inl same ↦ (
        a,
        subst (λ t. hash_value c a ≡ ok t) ((==_iff h v).0 same) hashed,
        rw (lookup-insert, same) refl,
      )
      | inr other ↦ (b, hb, rw (lookup-insert, other) found)
    ]

    pub balance_at-insert :
        (v : ℕ) → Resolves lb v → balance_at (insert h (leaf c a) lb) v ≡ balance_at lb v
    unfolding balance_at
    balance_at-insert v (b, hb, found) = elim (Bool-cases (h == v)) [
      | inl same ↦
          let here : hash_value c a ≡ ok v =
            subst (λ t. hash_value c a ≡ ok t) ((==_iff h v).0 same) hashed in
          ap leaf_balance (
            rw (lookup-insert, same) (ap some (hash_value-injective c laws a b here hb))
            ∙ sym found)
      | inr other ↦ ap leaf_balance (rw (lookup-insert, other) refl)
    ]

    pub AllResolve-insert-leaf :
        (m : List (ℕ × ℕ)) → AllResolve lb m → AllResolve (insert h (leaf c a) lb) m
    AllResolve-insert-leaf [] r = tt
    AllResolve-insert-leaf ((i, v) ∷ m) (r, fresh, rest) =
        (Resolves-insert v r, fresh, AllResolve-insert-leaf m rest)

    pub balances-insert-leaf :
        (m : List (ℕ × ℕ)) → AllResolve lb m → balances (insert h (leaf c a) lb) m ≡ balances lb m
    unfolding sum_values
    balances-insert-leaf [] r = refl
    balances-insert-leaf ((i, v) ∷ m) (r, fresh, rest) =
        rw (balance_at-insert v r, balances-insert-leaf m rest) refl

    pub balance_at-new : balance_at (insert h (leaf c a) lb) h ≡ a.balance
    unfolding balance_at
    balance_at-new =
        let new : lookup h (insert h (leaf c a) lb) ≡ some (leaf c a) =
          rw (lookup-insert, (==_iff h h).1 refl) refl in
        ap leaf_balance new ∙ leaf_element-balance c laws a (hash_value_fits c a hashed).1

  -- One index written.
  module _ (lb : List (ℕ × List ℕ)) (i v : ℕ) where
    pub AllResolve-insert_idx :
        (m : List (ℕ × ℕ)) → Resolves lb v → AllResolve lb m → AllResolve lb (insert i v m)
    unfolding insert
    AllResolve-insert_idx [] r all = (r, unfold lookup in refl, tt)
    AllResolve-insert_idx ((j, u) ∷ m) r (ru, fresh, rest) = elim (Bool-cases (j == i)) [
      | inl same ↦ rw same (r, subst (λ t. lookup t m ≡ none) ((==_iff j i).0 same) fresh, rest)
      | inr other ↦ rw other (ru, rw lookup-insert (ground arith), AllResolve-insert_idx m r rest)
    ]

    pub balances-insert_old :
        (u : ℕ) (m : List (ℕ × ℕ))
        → lookup i m ≡ some u
        → balances lb (insert i v m) + balance_at lb u ≡ balances lb m + balance_at lb v
    unfolding insert lookup sum_values
    balances-insert_old u [] e = cc
    balances-insert_old u ((j, w) ∷ m) e = grind (arith, balances-insert_old u m)

    pub balances-insert_new :
        (m : List (ℕ × ℕ))
        → lookup i m ≡ none
        → balances lb (insert i v m) ≡ balances lb m + balance_at lb v
    unfolding insert lookup sum_values
    balances-insert_new [] e = omega arith
    balances-insert_new ((j, w) ∷ m) e = grind (arith, balances-insert_new m)

  pub Resolves-lookup :
      (lb : List (ℕ × List ℕ)) (m : List (ℕ × ℕ)) (i : ℕ) {v : ℕ}
      → AllResolve lb m
      → lookup i m ≡ some v
      → Resolves lb v
  unfolding lookup
  Resolves-lookup lb [] i all e = cc
  Resolves-lookup lb ((j, u) ∷ m) i {v} (ru, fresh, rest) e = elim (Bool-cases (j == i)) [
    | inl same ↦ let eq : u ≡ v = ground arith in subst (Resolves lb) eq ru
    | inr other ↦ Resolves-lookup lb m i rest (ground arith)
  ]
