-- ===== src/StateDb/Tree/Balances.antt =====
-- The balance of each account under the writes of db/statedb/statedb.go.
use han_hermez_node.Crypto.{Crypto, CryptoLaws}
use han_hermez_node.Common.Account.{Account}
use han_hermez_node.StateDb.Tree.{TreeDb, put_leaf, get_account_in_tree}
use han_hermez_node.StateDb.Tree.Invariant.{
  IsValid, balance_at, balance_at-new, balance_at-insert, Resolves-lookup,
}
use han_hermez_node.StateDb.Tree.Laws.{get_account_in_tree-balance}
use han_hermez_node.StateDb.Tree.Writes.{Written}
use han_hermez_node.Prelude.{
  ℕ, ◌≡◌, refl, sym, ap, ◌∙◌, ◌≢◌, inl, inr, false, Option, none, some, List, arith, ◌==◌, ==_iff,
  Option-cases, ok, lookup, lookup-insert,
}

module _ (c : Crypto) where
  abbrev held : List (ℕ × List ℕ) → Option ℕ → ℕ
  held lb none = 0
  held lb (some u) = balance_at c lb u

  -- The balance in the leaf of an index, and 0 where there is no account
  unfoldable pub balance_of : ℕ → TreeDb → ℕ
  balance_of i t = held t.leaf_bytes (lookup i t.idx_leaf)

  module _ (laws : CryptoLaws c) where
    pub balance_of-read :
        (i : ℕ) (t : TreeDb) {a : Account}
        → IsValid c t
        → get_account_in_tree c i t ≡ ok a
        → balance_of i t ≡ a.balance
    unfolding balance_of
    balance_of-read i t valid read =
        let (u, found, same) = get_account_in_tree-balance c laws i t valid read in
        ap (held t.leaf_bytes) found ∙ same

    module _ (i : ℕ) (a : Account) (t t' : TreeDb) (w : Written c i a t t') where
      pub balance_of-Written : balance_of i t' ≡ a.balance
      unfolding balance_of put_leaf
      balance_of-Written =
          let here : lookup i t'.idx_leaf ≡ some w.hash =
            rw (w.idx_leaf, lookup-insert, (==_iff i i).1 refl) refl in
          ap (held t'.leaf_bytes) here
          ∙ ap (λ (lb : List (ℕ × List ℕ)). balance_at c lb w.hash) w.leaf_bytes
          ∙ balance_at-new c laws a w.hashed t.leaf_bytes

      pub balance_of-Written_ne : (j : ℕ) → j ≢ i → IsValid c t → balance_of j t' ≡ balance_of j t
      unfolding balance_of put_leaf
      balance_of-Written_ne j ne valid =
          let test : (i == j) ≡ false = ground arith in
          let same : lookup j t'.idx_leaf ≡ lookup j t.idx_leaf =
            rw (w.idx_leaf, lookup-insert, test) refl in
          elim (Option-cases (lookup j t.idx_leaf)) [
            | inl missing ↦
                ap (held t'.leaf_bytes) (same ∙ missing) ∙ sym (ap (held t.leaf_bytes) missing)
            | inr (u, found) ↦
                ap (held t'.leaf_bytes) (same ∙ found)
                ∙ ap (λ (lb : List (ℕ × List ℕ)). balance_at c lb u) w.leaf_bytes
                ∙ balance_at-insert c laws a w.hashed t.leaf_bytes u
                    (Resolves-lookup c t.leaf_bytes t.idx_leaf j valid.resolve found)
                ∙ sym (ap (held t.leaf_bytes) found)
          ]
