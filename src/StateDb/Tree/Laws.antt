-- ===== src/StateDb/Tree/Laws.antt =====
-- What a write to an account storage does to the accounts that are read from it and to the sum of
-- their balances (db/statedb/statedb.go).
use mathlib.Core.Path.{ap₂}
use han_hermez_node.Bytes.{of_be, of_be-be_of_lt}
use han_hermez_node.Crypto.{Crypto, CryptoLaws}
use han_hermez_node.Common.Ids.{token_id_from_bytes, nonce_from_bytes}
use han_hermez_node.Common.Account.{
  Account, account_bytes, hash_value, account_from_bytes, account_of_parts,
}
use han_hermez_node.Common.Account.RoundTrip.{leaf, account_bytes-leaf, leaf_balance}
use han_hermez_node.Common.Account.Hash.{hash_value_fits, leaf_element-balance}
use han_hermez_node.StateDb.Tree.{TreeDb, put_leaf, get_account_in_tree}
use han_hermez_node.StateDb.Tree.Invariant.{
  Resolves, balance_at, total, IsValid, AllResolve-insert-leaf, balances-insert-leaf,
  balance_at-new, balance_at-insert, AllResolve-insert_idx, balances-insert_old,
  balances-insert_new, Resolves-lookup,
}
use han_hermez_node.Prelude.{
  ℕ, ◌+◌, ◌≡◌, refl, sym, ap, ◌∙◌, inl, inr, none, some, List, arith, ==_iff, Option-cases, get_or,
  slice, Result, ok, Result-cases, lookup, insert, lookup-insert,
}

module _ (c : Crypto) (laws : CryptoLaws c) where
  -- The bytes that an account with a hash has.
  pub account_bytes-hash :
      (a : Account) {h : ℕ} → hash_value c a ≡ ok h → account_bytes c a ≡ ok (leaf c a)
  account_bytes-hash a e = let (hn, hb, _) = hash_value_fits c a e in account_bytes-leaf c a hn hb

  module _ (i : ℕ) (a : Account) {h : ℕ} (hashed : hash_value c a ≡ ok h) (t : TreeDb)
      (valid : IsValid c t) where
    stored : Resolves c (insert h (leaf c a) t.leaf_bytes) h
    stored = (a, hashed, rw (lookup-insert, (==_iff h h).1 refl) refl)

    pub put_leaf-IsValid : IsValid c (put_leaf c i h (leaf c a) t)
    unfolding put_leaf
    put_leaf-IsValid = record {
      resolve =
          AllResolve-insert_idx c _ i h t.idx_leaf stored
            (AllResolve-insert-leaf c laws a hashed t.leaf_bytes t.idx_leaf valid.resolve);
    }

    pub total-put_leaf_old :
        (u : ℕ)
        → lookup i t.idx_leaf ≡ some u
        → total c (put_leaf c i h (leaf c a) t) + balance_at c t.leaf_bytes u
          ≡ total c t + a.balance
    unfolding put_leaf total
    total-put_leaf_old u e =
        let lb = t.leaf_bytes in
        let ru = Resolves-lookup c lb t.idx_leaf i valid.resolve e in
        omega (
          arith,
          balances-insert_old c (insert h (leaf c a) lb) i h u t.idx_leaf e,
          balances-insert-leaf c laws a hashed lb t.idx_leaf valid.resolve,
          balance_at-new c laws a hashed lb,
          balance_at-insert c laws a hashed lb u ru,
        )

    pub total-put_leaf_new :
        lookup i t.idx_leaf ≡ none → total c (put_leaf c i h (leaf c a) t) ≡ total c t + a.balance
    unfolding put_leaf total
    total-put_leaf_new e =
        balances-insert_new c _ i h t.idx_leaf e
        ∙ ap₂ ◌+◌ (balances-insert-leaf c laws a hashed t.leaf_bytes t.idx_leaf valid.resolve)
            (balance_at-new c laws a hashed t.leaf_bytes)

  account_of_parts-balance :
      (token : Result ℕ) (nonce sign high balance ay addr : ℕ) {a : Account}
      → account_of_parts c token nonce sign high balance ay addr ≡ ok a
      → a.balance ≡ balance
  unfolding account_of_parts
  account_of_parts-balance token nonce sign high balance ay addr e = ground arith

  account_from_bytes-balance :
      (b : List ℕ) {a : Account} → account_from_bytes c b ≡ ok a → a.balance ≡ of_be (slice b 40 64)
  account_from_bytes-balance b {a} e =
      account_of_parts-balance (token_id_from_bytes (slice b 28 32))
        (nonce_from_bytes (slice b 23 28)) (get_or b 22 0) (of_be (slice b 32 40))
        (of_be (slice b 40 64)) (of_be (slice b 64 96)) (of_be (slice b 108 128)) {a = a}
        (unfold account_from_bytes in e)

  -- The bytes of a leaf that is found are those of an account with the leaf's hash.
  leaf_read :
      (i : ℕ) (t : TreeDb) {u : ℕ} (b : List ℕ) {a : Account}
      → lookup i t.idx_leaf ≡ some u
      → lookup u t.leaf_bytes ≡ some b
      → get_account_in_tree c i t ≡ ok a
      → (x : Account) × (account_from_bytes c b ≡ ok x) × (a ≡ record x { idx = i })
  unfolding get_account_in_tree
  leaf_read i t b found bytes e = elim (Result-cases (account_from_bytes c b)) [
    | inl (x, ex) ↦ (x, ex, ground (arith, ex))
    | inr (x, ex) ↦ ground (arith, ex)
  ]

  -- An account that is read has the balance of its leaf.
  pub get_account_in_tree-balance :
      (i : ℕ) (t : TreeDb) {a : Account}
      → IsValid c t
      → get_account_in_tree c i t ≡ ok a
      → (u : ℕ) × (lookup i t.idx_leaf ≡ some u) × (balance_at c t.leaf_bytes u ≡ a.balance)
  unfolding get_account_in_tree
  get_account_in_tree-balance i t {a} valid e = elim (Option-cases (lookup i t.idx_leaf)) [
    | inl missing ↦ ground arith
    | inr (u, found) ↦
        let (a0, hashed, bytes) = Resolves-lookup c t.leaf_bytes t.idx_leaf i valid.resolve found in
        let (x, ex, same) = leaf_read i t (leaf c a0) found bytes e in
        let fits = (hash_value_fits c a0 hashed).1 in
        let read : a.balance ≡ a0.balance =
          ap (λ (r : Account). r.balance) same
          ∙ account_from_bytes-balance (leaf c a0) ex
          ∙ rw (leaf_balance c a0) (of_be-be_of_lt 24 a0.balance fits) in
        (u, found, unfold balance_at in rw bytes (leaf_element-balance c laws a0 fits ∙ sym read))
  ]
