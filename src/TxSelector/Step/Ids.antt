-- ===== src/TxSelector/Step/Ids.antt =====
-- `ProcessL2Tx` does not touch the identifiers of a transaction (txprocessor/txprocessor.go).
use han_hermez_node.Exec.{◌>>=◌}
use han_hermez_node.Exec.Success.{>>=-Succeeds}
use han_hermez_node.Crypto.{Crypto}
use han_hermez_node.Common.Tx.{PoolL2Tx}
use han_hermez_node.StateDb.{get_account}
use han_hermez_node.TxProcessor.State.{TxProcessor}
use han_hermez_node.TxProcessor.Process.{
  L2Result, process_l2_tx, find_to_idx, fill_from_sender, apply_l2,
}
use han_hermez_node.TxSelector.Step.{noted}
use han_hermez_node.Prelude.{ℕ, ◌≡◌, refl, ◌∙◌, inl, inr, List, arith, ok, Result-cases}

-- The same transaction and the same atomic group.
pub record SameIds (tx tx' : PoolL2Tx) : Type 0 where
  pub tx_id : tx'.tx_id ≡ tx.tx_id
  pub group : tx'.atomic_group_id ≡ tx.atomic_group_id

abbrev pub SameIds-refl : {tx : PoolL2Tx} → SameIds tx tx
SameIds-refl = record { tx_id = refl; group = refl }

pub SameIds-trans : {a b d : PoolL2Tx} → SameIds a b → SameIds b d → SameIds a d
SameIds-trans x y = record { tx_id = y.tx_id ∙ x.tx_id; group = y.group ∙ x.group }

module _ (c : Crypto) where
  find_to_idx-SameIds :
      (tx : PoolL2Tx) (p : TxProcessor) (found : PoolL2Tx)
      → (find_to_idx c tx p).0 ≡ ok found
      → SameIds tx found
  unfolding find_to_idx
  find_to_idx-SameIds tx p found done = record {
    tx_id = ground (arith, done, Result-cases (get_account c tx.from_idx p.state));
    group = ground (arith, done, Result-cases (get_account c tx.from_idx p.state));
  }

  fill_from_sender-SameIds :
      (tx : PoolL2Tx) (p : TxProcessor) (filled : PoolL2Tx)
      → (fill_from_sender c tx p).0 ≡ ok filled
      → SameIds tx filled
  unfolding fill_from_sender
  fill_from_sender-SameIds tx p filled done = record {
    tx_id = ground (arith, done, Result-cases (get_account c tx.from_idx p.state));
    group = ground (arith, done, Result-cases (get_account c tx.from_idx p.state));
  }

  apply_l2-SameIds :
      (m : List (ℕ × ℕ)) (tx : PoolL2Tx) (p : TxProcessor) (r : L2Result)
      → (apply_l2 c m tx p).0 ≡ ok r
      → SameIds tx r.tx
  unfolding apply_l2
  apply_l2-SameIds m tx p r done = record {
    tx_id = ground (arith, done);
    group = ground (arith, done);
  }

  pub process_l2_tx-SameIds :
      (m : List (ℕ × ℕ)) (tx : PoolL2Tx) (p : TxProcessor) (r : L2Result)
      → (process_l2_tx c m tx p).0 ≡ ok r
      → SameIds tx r.tx
  unfolding process_l2_tx
  process_l2_tx-SameIds m tx p r done =
      let a =
        >>=-Succeeds (find_to_idx c tx)
          (λ found. fill_from_sender c found >>= λ filled. apply_l2 c m filled) p done in
      let q = (find_to_idx c tx p).1 in
      let b = >>=-Succeeds (fill_from_sender c a.value) (λ filled. apply_l2 c m filled) q a.rest in
      let t = (fill_from_sender c a.value q).1 in
      SameIds-trans (find_to_idx-SameIds tx p a.value a.first) (
        SameIds-trans (fill_from_sender-SameIds a.value q b.value b.first)
          (apply_l2-SameIds m b.value t r b.rest))

  pub noted-SameIds : (tx : PoolL2Tx) (p : TxProcessor) → SameIds tx (noted c tx p)
  unfolding noted
  noted-SameIds tx p = elim (Result-cases (find_to_idx c tx p).0) [
    | inl (found, e) ↦ rw (e, noted) (find_to_idx-SameIds tx p found e)
    | inr (x, e) ↦ rw (e, noted) SameIds-refl
  ]
