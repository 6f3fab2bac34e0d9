-- ===== src/StateDb/Tree.antt =====
-- Accounts in a storage with an optional Merkle tree over it (`GetAccountInTreeDB`,
-- `CreateAccountInTreeDB` and `UpdateAccountInTreeDB` of db/statedb/statedb.go). They serve the
-- StateDB and the exit tree alike. Pebble's own I/O errors are left out.
pub mod Invariant
pub mod Laws
pub mod Writes
pub mod ReadBack
pub mod Balances
use han_hermez_node.Exec.{Exec, lift, gets, modify, ensure, pure, raise, ◌>>=◌, ◌>>◌}
use han_hermez_node.Crypto.{Crypto}
use han_hermez_node.Common.Ids.{idx_bytes}
use han_hermez_node.Common.Account.{Account, account_bytes, hash_value, account_from_bytes}
use han_hermez_node.Prelude
use han_hermez_node.Prelude.{
  ℕ, Bool, true, false, Option, none, some, List, ◌∷◌, if◌then◌else◌, Error, Result, ok, err, ok_or,
  lookup, insert,
}

-- The keys of the storage that hold accounts: `PrefixKeyIdx` maps an index to the hash of its leaf,
-- `PrefixKeyAccHash` a hash to the leaf's bytes. `mt` is the Merkle tree, as the writes made to it,
-- the last first; it is nil in a StateDB of type TxSelector.
pub record TreeDb : Type 0 where
  pub idx_leaf : List (ℕ × ℕ)
  pub leaf_bytes : List (ℕ × List ℕ)
  pub mt : Option (List (ℕ × ℕ))

module _ (c : Crypto) where
  -- `GetAccountInTreeDB`
  unfoldable pub get_account_in_tree : ℕ → TreeDb → Result Account
  get_account_in_tree idx t = Prelude.◌>>=◌ (idx_bytes idx) λ _.
      Prelude.◌>>=◌ (ok_or (lookup idx t.idx_leaf) Error.not_found) λ v.
        Prelude.◌>>=◌ (ok_or (lookup v t.leaf_bytes) Error.not_found)
          λ b. Prelude.◌>>=◌ (account_from_bytes c b) λ a. ok (record a { idx = idx })

  -- The two `Put`s and the `Commit`.
  unfoldable pub put_leaf : ℕ → ℕ → List ℕ → TreeDb → TreeDb
  put_leaf idx v b t = record t {
    idx_leaf = insert idx v t.idx_leaf;
    leaf_bytes = insert v b t.leaf_bytes;
  }

  -- `mt.AddAndGetCircomProof` and `mt.Update`, where there is a tree.
  unfoldable pub write_mt : (List (ℕ × ℕ) → ℕ → ℕ → Bool) → ℕ → ℕ → Exec TreeDb (Unit {0})
  write_mt accepts idx v t = elim t.mt [
    | none ↦ (ok tt, t)
    | some writes ↦
        if accepts writes idx v
        then (ok tt, record t { mt = some ((idx, v) ∷ writes) })
        else (err Error.merkle_tree_error, t)
  ]

  -- `CreateAccountInTreeDB`
  unfoldable pub create_account_in_tree : ℕ → Account → Exec TreeDb (Unit {0})
  create_account_in_tree idx account = do
    v ← lift (hash_value c account)
    b ← lift (account_bytes c account)
    lift (idx_bytes idx)
    old ← gets (λ t. lookup idx t.idx_leaf)
    ensure (elim old [ none ↦ true | some _ ↦ false ]) Error.account_already_exists
    modify (put_leaf idx v b)
    write_mt c.mt_accepts_add idx v

  -- `UpdateAccountInTreeDB`. The index is encoded after the first `Put`, before the `Commit`.
  unfoldable pub update_account_in_tree : ℕ → Account → Exec TreeDb (Unit {0})
  update_account_in_tree idx account = do
    v ← lift (hash_value c account)
    b ← lift (account_bytes c account)
    lift (idx_bytes idx)
    modify (put_leaf idx v b)
    write_mt c.mt_accepts_update idx v
