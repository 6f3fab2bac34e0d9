-- ===== src/TxProcessor/Apply/Steps.antt =====
-- What a successful step of the processor does to the storage of the accounts and to what lies
-- beside it (`createAccount` and `updateAccount` of txprocessor/txprocessor.go).
use han_hermez_node.Crypto.{Crypto, CryptoLaws}
use han_hermez_node.Common.Account.{Account}
use han_hermez_node.Common.Ids.{idx_bytes}
use han_hermez_node.StateDb.{
  StateDb, tree_of, set_tree, create_account, update_account, set_idx_by_eth_addr_bjj, put_idx_keys,
}
use han_hermez_node.Common.Account.RoundTrip.{leaf}
use han_hermez_node.StateDb.Tree.{TreeDb, put_leaf, update_account_in_tree, create_account_in_tree}
use han_hermez_node.StateDb.Tree.Invariant.{total, IsValid, balance_at, balance_at-new}
use han_hermez_node.StateDb.Tree.Laws.{total-put_leaf_old}
use han_hermez_node.StateDb.Tree.Writes.{Written, update-Written, create-Written}
use han_hermez_node.TxProcessor.State.{
  TxProcessor, note_account, proc_create_account, proc_update_account,
}
use han_hermez_node.Prelude.{
  ℕ, ◌+◌, ◌≡◌, refl, sym, ap, ◌∙◌, subst, inl, inr, none, some, arith, ==_iff, ok, Result-cases,
  lookup, lookup-insert,
}

module _ (c : Crypto) (laws : CryptoLaws c) where
  -- One account written, and the fees, the exits and the account counter left as they were.
  pub record Updated (i : ℕ) (a : Account) (p p' : TxProcessor) : Type 0 where
    pub written : Written c i a (tree_of p.state) (tree_of p'.state)
    pub exit_same : p'.exit_tree ≡ p.exit_tree
    pub fees_same : p'.accumulated_fees ≡ p.accumulated_fees
    pub idx_same : p'.state.kv.current_idx ≡ p.state.kv.current_idx

  -- Beside a map that it may write, `note_account` changes nothing.
  module _ (i : ℕ) (a : Account) (p : TxProcessor) where
    note_account-state : (note_account i a p).state ≡ p.state
    unfolding note_account
    note_account-state = ground arith

    note_account-exit_tree : (note_account i a p).exit_tree ≡ p.exit_tree
    unfolding note_account
    note_account-exit_tree = ground arith

    note_account-fees : (note_account i a p).accumulated_fees ≡ p.accumulated_fees
    unfolding note_account
    note_account-fees = ground arith

    pub proc_update_account-Updated :
        (proc_update_account c i a p).0 ≡ ok tt → Updated i a p (proc_update_account c i a p).1
    unfolding proc_update_account update_account
    proc_update_account-Updated done =
        let q = note_account i a p in
        let w = update-Written c laws i a (tree_of q.state) done in
        record {
          written =
              subst
                (λ s. Written c i a (tree_of s) (update_account_in_tree c i a (tree_of q.state)).1)
                note_account-state w;
          exit_same = note_account-exit_tree;
          fees_same = note_account-fees;
          idx_same = ap (λ s. s.kv.current_idx) note_account-state;
        }

    -- The keys of a new account are set after its leaf, and no leaf changes.
    set_idx_by_eth_addr_bjj-tree :
        (x y z w : ℕ) (s : StateDb)
        → (tree_of (set_idx_by_eth_addr_bjj x y z w s).1 ≡ tree_of s)
          × ((set_idx_by_eth_addr_bjj x y z w s).1.kv.current_idx ≡ s.kv.current_idx)
    unfolding set_idx_by_eth_addr_bjj put_idx_keys
    set_idx_by_eth_addr_bjj-tree x y z w s = elim (Result-cases (idx_bytes x)) [
      | inl (b, e) ↦ (ground (arith, e), ground (arith, e))
      | inr (b, e) ↦ (ground (arith, e), ground (arith, e))
    ]

    create_account-tree :
        (s : StateDb)
        → (create_account c i a s).0 ≡ ok tt
        → ((create_account_in_tree c i a (tree_of s)).0 ≡ ok tt)
          × (tree_of (create_account c i a s).1 ≡ (create_account_in_tree c i a (tree_of s)).1)
          × ((create_account c i a s).1.kv.current_idx ≡ s.kv.current_idx)
    unfolding create_account
    create_account-tree s done = elim (Result-cases (create_account_in_tree c i a (tree_of s)).0) [
      | inl (u, e) ↦
          let (t, k) =
            set_idx_by_eth_addr_bjj-tree i a.eth_addr a.bjj a.token_id
              (set_tree (create_account_in_tree c i a (tree_of s)).1 s) in
          (e, ground (arith, e, t), ground (arith, e, k))
      | inr (x, e) ↦ ground (arith, e)
    ]

    pub proc_create_account-Updated :
        (proc_create_account c i a p).0 ≡ ok tt
        → (lookup i (tree_of p.state).idx_leaf ≡ none)
          × Updated i a p (proc_create_account c i a p).1
    unfolding proc_create_account
    proc_create_account-Updated done =
        let q = note_account i a p in
        let (made, tree, kept) = create_account-tree q.state done in
        let (fresh, w) = create-Written c laws i a (tree_of q.state) made in
        let w' : Written c i a (tree_of q.state) (tree_of (create_account c i a q.state).1) =
          subst (λ t. Written c i a (tree_of q.state) t) (sym tree) w in
        (
          subst (λ s. lookup i (tree_of s).idx_leaf ≡ none) note_account-state fresh,
          record {
            written =
                subst (λ s. Written c i a (tree_of s) (tree_of (create_account c i a q.state).1))
                  note_account-state w';
            exit_same = note_account-exit_tree;
            fees_same = note_account-fees;
            idx_same = kept ∙ ap (λ s. s.kv.current_idx) note_account-state;
          },
        )

    -- The same account written again: the sum changes by the change of the balance.
    pub total-Written_again :
        (b : Account) (t t' t'' : TreeDb)
        → IsValid c t'
        → Written c i a t t'
        → Written c i b t' t''
        → total c t'' + a.balance ≡ total c t' + b.balance
    unfolding put_leaf
    total-Written_again b t t' t'' valid w v =
        let here : lookup i t'.idx_leaf ≡ some w.hash =
          rw (w.idx_leaf, lookup-insert, (==_iff i i).1 refl) refl in
        let old : balance_at c t'.leaf_bytes w.hash ≡ a.balance =
          subst (λ m. balance_at c m w.hash ≡ a.balance) (sym w.leaf_bytes)
            (balance_at-new c laws a w.hashed t.leaf_bytes) in
        let moved = total-put_leaf_old c laws i b v.hashed t' valid w.hash here in
        let whole : total c t'' ≡ total c (put_leaf c i v.hash (leaf c b) t') =
          unfold total in rw (v.idx_leaf, v.leaf_bytes) refl in
        omega arith
