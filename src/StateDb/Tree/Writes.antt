-- ===== src/StateDb/Tree/Writes.antt =====
-- `CreateAccountInTreeDB` and `UpdateAccountInTreeDB` (db/statedb/statedb.go) against the accounts
-- that are read afterwards and the sum of the balances.
use han_hermez_node.Bytes.{be}
use han_hermez_node.Crypto.{Crypto, CryptoLaws}
use han_hermez_node.Common.Ids.{idx_bytes, max_idx_value}
use han_hermez_node.Common.Account.{Account, account_bytes, hash_value}
use han_hermez_node.Common.Account.RoundTrip.{leaf}
use han_hermez_node.Common.Account.Hash.{account_from_bytes-hash, hash_value-injective}
use han_hermez_node.StateDb.Tree.{
  TreeDb, put_leaf, write_mt, get_account_in_tree, create_account_in_tree, update_account_in_tree,
}
use han_hermez_node.StateDb.Tree.Invariant.{total, IsValid, Resolves-lookup}
use han_hermez_node.StateDb.Tree.Laws.{
  account_bytes-hash, put_leaf-IsValid, total-put_leaf_old, total-put_leaf_new,
  get_account_in_tree-balance,
}
use han_hermez_node.Prelude.{
  ℕ, ◌+◌, ◌^◌, ◌≤◌, ◌<◌, ◌≡◌, refl, sym, ap, ◌∙◌, subst, ◌≢◌, ◌⊎◌, inl, inr, true, false, none,
  some, List, arith, ltb, ◌==◌, ==_iff, Bool-cases, Option-cases, drop, Error, ok, err,
  Result-cases, lookup, lookup-insert,
}

module _ (c : Crypto) where
  -- The storage after the leaf of an account was written under an index.
  pub record Written (i : ℕ) (a : Account) (t t' : TreeDb) : Type 0 where
    pub hash : ℕ
    pub hashed : hash_value c a ≡ ok hash
    pub small : i ≤ max_idx_value
    pub idx_leaf : t'.idx_leaf ≡ (put_leaf c i hash (leaf c a) t).idx_leaf
    pub leaf_bytes : t'.leaf_bytes ≡ (put_leaf c i hash (leaf c a) t).leaf_bytes

  module _ (laws : CryptoLaws c) where
    hashed_leaf :
        (a : Account)
        → ((h : ℕ) × (hash_value c a ≡ ok h) × (account_bytes c a ≡ ok (leaf c a)))
          ⊎ ((e : Error) × (hash_value c a ≡ err e))
    hashed_leaf a = elim (Result-cases (hash_value c a)) [
      | inl (h, e) ↦ inl (h, e, account_bytes-hash c laws a e)
      | inr (x, e) ↦ inr (x, e)
    ]

    idx_bytes_fits :
        (i : ℕ)
        → ((b : List ℕ) × (idx_bytes i ≡ ok b) × (i ≤ max_idx_value))
          ⊎ ((e : Error) × (idx_bytes i ≡ err e))
    unfolding idx_bytes
    idx_bytes_fits i = elim (Bool-cases (ltb max_idx_value i)) [
      | inl big ↦ inr (Error.idx_overflow, rw big refl)
      | inr small ↦ inl (drop 2 (be 8 i), rw small refl, ground arith)
    ]

    module _ (i : ℕ) (a : Account) (t : TreeDb) where
      pub update-Written :
          (update_account_in_tree c i a t).0 ≡ ok tt
          → Written i a t (update_account_in_tree c i a t).1
      unfolding update_account_in_tree write_mt
      update-Written done = elim (hashed_leaf a) [
        | inl (h, e, b) ↦ elim (idx_bytes_fits i) [
          | inl (k, ek, small) ↦ record {
            hash = h;
            hashed = e;
            small = small;
            idx_leaf = ground (arith, e, b, ek);
            leaf_bytes = ground (arith, e, b, ek);
          }
          | inr (x, ex) ↦ ground (arith, e, b, ex)
        ]
        | inr (x, e) ↦ ground (arith, e)
      ]

      pub create-Written :
          (create_account_in_tree c i a t).0 ≡ ok tt
          → (lookup i t.idx_leaf ≡ none) × Written i a t (create_account_in_tree c i a t).1
      unfolding create_account_in_tree write_mt
      create-Written done = elim (hashed_leaf a) [
        | inl (h, e, b) ↦ elim (idx_bytes_fits i) [
          | inl (k, ek, small) ↦ (
            ground (arith, e, b, ek),
            record {
              hash = h;
              hashed = e;
              small = small;
              idx_leaf = ground (arith, e, b, ek);
              leaf_bytes = ground (arith, e, b, ek);
            },
          )
          | inr (x, ex) ↦ ground (arith, e, b, ex)
        ]
        | inr (x, e) ↦ ground (arith, e)
      ]

      -- A successful `UpdateAccount` of an account that was read changes the sum of the balances
      -- by the change of its balance.
      pub total-Written :
          (t' : TreeDb) (old : Account)
          → IsValid c t
          → get_account_in_tree c i t ≡ ok old
          → Written i a t t'
          → total c t' + old.balance ≡ total c t + a.balance
      total-Written t' old valid read w =
          let (u, found, same) = get_account_in_tree-balance c laws i t valid read in
          let moved = total-put_leaf_old c laws i a w.hashed t valid u found in
          let whole : total c t' ≡ total c (put_leaf c i w.hash (leaf c a) t) =
            unfold total in rw (w.idx_leaf, w.leaf_bytes) refl in
          omega arith

      pub total-Written_new :
          (t' : TreeDb)
          → IsValid c t
          → lookup i t.idx_leaf ≡ none
          → Written i a t t'
          → total c t' ≡ total c t + a.balance
      total-Written_new t' valid fresh w =
          let moved = total-put_leaf_new c laws i a w.hashed t valid fresh in
          let whole : total c t' ≡ total c (put_leaf c i w.hash (leaf c a) t) =
            unfold total in rw (w.idx_leaf, w.leaf_bytes) refl in
          omega arith

      pub Written-IsValid : (t' : TreeDb) → IsValid c t → Written i a t t' → IsValid c t'
      Written-IsValid t' valid w =
          let v = put_leaf-IsValid c laws i a w.hashed t valid in
          record { resolve = rw (w.idx_leaf, w.leaf_bytes) v.resolve }

      -- The account is read back as it was written.
      pub get_account_in_tree-Written :
          (t' : TreeDb)
          → a.token_id < 2 ^ 32
          → a.bjj < 2 ^ 256
          → a.eth_addr < 2 ^ 160
          → Written i a t t'
          → get_account_in_tree c i t' ≡ ok (record a { idx = i; batch_num = 0 })
      unfolding get_account_in_tree put_leaf idx_bytes
      get_account_in_tree-Written t' ht hj he w =
          let here : lookup i t'.idx_leaf ≡ some w.hash =
            rw (w.idx_leaf, lookup-insert, (==_iff i i).1 refl) refl in
          let bytes : lookup w.hash t'.leaf_bytes ≡ some (leaf c a) =
            rw (w.leaf_bytes, lookup-insert, (==_iff w.hash w.hash).1 refl) refl in
          let read = account_from_bytes-hash c laws a w.hashed ht hj he in
          let small = w.small in ground (arith, here, bytes, read, small)

      -- No other account changes.
      pub get_account_in_tree-Written_ne :
          (t' : TreeDb) (j : ℕ)
          → j ≢ i
          → IsValid c t
          → Written i a t t'
          → get_account_in_tree c j t' ≡ get_account_in_tree c j t
      unfolding get_account_in_tree put_leaf
      get_account_in_tree-Written_ne t' j ne valid w =
          let test : (i == j) ≡ false = ground arith in
          let same : lookup j t'.idx_leaf ≡ lookup j t.idx_leaf =
            rw (w.idx_leaf, lookup-insert, test) refl in
          elim (Option-cases (lookup j t.idx_leaf)) [
            | inl missing ↦ rw (same, missing) refl
            | inr (u, found) ↦
                let (b, hb, bytes) =
                  Resolves-lookup c t.leaf_bytes t.idx_leaf j valid.resolve found in
                let kept : lookup u t'.leaf_bytes ≡ lookup u t.leaf_bytes =
                  leaf_kept u b hb bytes (Bool-cases (w.hash == u)) in
                rw (same, found) (simp kept)
          ]
        where
          leaf_kept :
              (u : ℕ) (b : Account)
              → hash_value c b ≡ ok u
              → lookup u t.leaf_bytes ≡ some (leaf c b)
              → ((w.hash == u) ≡ true) ⊎ ((w.hash == u) ≡ false)
              → lookup u t'.leaf_bytes ≡ lookup u t.leaf_bytes
          leaf_kept u b hb bytes (inl same) =
              let ha : hash_value c a ≡ ok u =
                subst (λ v. hash_value c a ≡ ok v) ((==_iff w.hash u).0 same) w.hashed in
              rw (w.leaf_bytes, lookup-insert, same)
                (ap some (hash_value-injective c laws a b ha hb) ∙ sym bytes)
          leaf_kept u b hb bytes (inr other) = rw (w.leaf_bytes, lookup-insert, other) refl
