-- ===== src/StateDb/Tree/ReadBack.antt =====
-- What is read after `UpdateAccountInTreeDB` and `CreateAccountInTreeDB` (db/statedb/statedb.go).
use han_hermez_node.Crypto.{Crypto, CryptoLaws}
use han_hermez_node.Common.Account.{Account}
use han_hermez_node.StateDb.Tree.{
  TreeDb, get_account_in_tree, create_account_in_tree, update_account_in_tree,
}
use han_hermez_node.StateDb.Tree.Invariant.{IsValid}
use han_hermez_node.StateDb.Tree.Writes.{
  Written, update-Written, create-Written, get_account_in_tree-Written,
  get_account_in_tree-Written_ne, Written-IsValid,
}
use han_hermez_node.Prelude.{ℕ, ◌^◌, ◌<◌, ◌≡◌, ◌≢◌, none, ok, lookup}

module _ (c : Crypto) where
  -- An account storage after a write: in order, with the account under its index, and with every
  -- other account as it was.
  pub record ReadsBack (i : ℕ) (a : Account) (t t' : TreeDb) : Type 0 where
    pub valid : IsValid c t'
    pub here : get_account_in_tree c i t' ≡ ok (record a { idx = i; batch_num = 0 })
    pub elsewhere : (j : ℕ) → j ≢ i → get_account_in_tree c j t' ≡ get_account_in_tree c j t

  -- An account whose fields have the width of their types.
  pub record FitsWords (a : Account) : Type 0 where
    pub token_id : a.token_id < 2 ^ 32
    pub bjj : a.bjj < 2 ^ 256
    pub eth_addr : a.eth_addr < 2 ^ 160

  module _ (laws : CryptoLaws c) (i : ℕ) (a : Account) (t : TreeDb) (valid : IsValid c t)
      (fits : FitsWords a) where
    Written-ReadsBack : (t' : TreeDb) → Written c i a t t' → ReadsBack i a t t'
    Written-ReadsBack t' w = record {
      valid = Written-IsValid c laws i a t t' valid w;
      here = get_account_in_tree-Written c laws i a t t' fits.token_id fits.bjj fits.eth_addr w;
      elsewhere = λ j ne. get_account_in_tree-Written_ne c laws i a t t' j ne valid w;
    }

    -- Given `CryptoLaws`: an update that succeeds on a storage in order, for an account whose
    -- fields fit their words, leaves the storage in order, is read back under its index with the
    -- fields of the leaf, and changes no other account, also where two accounts have the same leaf.
    pub update_account_in_tree-ReadsBack :
        (update_account_in_tree c i a t).0 ≡ ok tt
        → ReadsBack i a t (update_account_in_tree c i a t).1
    update_account_in_tree-ReadsBack done = Written-ReadsBack _ (update-Written c laws i a t done)

    -- Given `CryptoLaws`: a creation that succeeds on a storage in order, for an account whose
    -- fields fit their words, was under an index without an account. It leaves the storage in
    -- order, is read back under its index with the fields of the leaf, and changes no other
    -- account.
    pub create_account_in_tree-ReadsBack :
        (create_account_in_tree c i a t).0 ≡ ok tt
        → (lookup i t.idx_leaf ≡ none) × ReadsBack i a t (create_account_in_tree c i a t).1
    create_account_in_tree-ReadsBack done =
        let (fresh, w) = create-Written c laws i a t done in (fresh, Written-ReadsBack _ w)
