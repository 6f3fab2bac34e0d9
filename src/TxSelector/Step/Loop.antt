-- ===== src/TxSelector/Step/Loop.antt =====
-- The loop of `processL2Txs`: an invariant that names the transactions that are left.
use han_hermez_node.Crypto.{Crypto}
use han_hermez_node.Common.Tx.{L1Tx, PoolL2Tx}
use han_hermez_node.TxProcessor.State.{TxProcessor, Config}
use han_hermez_node.TxSelector.State.{
  Setup, Selection, FailedAtomicGroup, can_add_l2_tx, can_add_l2_tx_that_needs_new_coord_l1_tx,
  empty_atomic_group_id, err_no_available_slots,
}
use han_hermez_node.TxSelector.Pick.{Flow, ◌>>◌, iteration}
use han_hermez_node.TxSelector.Pick.Leads.{After, Leads, Leads->>, Leads-weaken, Leads-iteration}
use han_hermez_node.TxSelector.Step.{
  add_l1_coordinator_tx, count_l1, select_tx, no_slots, select_txs, begin, process_l2_txs,
}
use han_hermez_node.TxSelector.Step.Accounts.{Steps, Blames}
use han_hermez_node.TxSelector.Step.Walk.{select_tx-Leads}
use han_hermez_node.Prelude.{
  ℕ, ◌≡◌, refl, subst, ◌⊎◌, inl, inr, true, List, [], ◌∷◌, ◌++◌, arith, ◌==◌, Bool-cases,
}

-- The transaction has a slot.
abbrev pub HasSlot : Config → Selection → Type 0
HasSlot config s = can_add_l2_tx s.n_l1 s.n_l2 config ≡ true

-- An L1 transaction of the coordinator leaves the slot.
pub HasSlot-add_l1 :
    (config : Config) (l1 : L1Tx) (auth : ℕ) (s : Selection)
    → can_add_l2_tx_that_needs_new_coord_l1_tx s.n_l1 s.n_l2 config ≡ true
    → HasSlot config (count_l1 (add_l1_coordinator_tx l1 auth s))
unfolding can_add_l2_tx_that_needs_new_coord_l1_tx can_add_l2_tx add_l1_coordinator_tx
HasSlot-add_l1 config l1 auth s space = ground (arith, space)

-- The arrays where there is no slot for `tx`.
abbrev pub without_slots : PoolL2Tx → List PoolL2Tx → Selection → Selection
without_slots tx rest s = record s {
  non_selected = s.non_selected ++ record tx { error_code = err_no_available_slots } ∷ rest;
}

-- An invariant `I` of the loop, with the transactions that are left.
pub record Loops (config : Config) (I : List PoolL2Tx → Selection → Type 0) : Type 0 where
  pub steps :
      (tx : PoolL2Tx) (rest : List PoolL2Tx)
      → Steps config tx (λ s. I (tx ∷ rest) s × HasSlot config s) (I rest)
  pub full :
      (tx : PoolL2Tx) (rest : List PoolL2Tx) (s : Selection)
      → tx.atomic_group_id ≡ empty_atomic_group_id
      → I (tx ∷ rest) s
      → I [] (without_slots tx rest s)

-- The group that failed is that of one of the transactions, which is named.
unfoldable pub BlamesOne : List PoolL2Tx → FailedAtomicGroup → Type 0
BlamesOne [] g = ⊥
BlamesOne (tx ∷ rest) g = Blames tx g ⊎ BlamesOne rest g

module _ (c : Crypto) (w : Setup) (future : List L1Tx) {I : List PoolL2Tx → Selection → Type 0}
    (k : Loops w.config I) where
  no_slots-After :
      (tx : PoolL2Tx) (rest : List PoolL2Tx) (s : Selection)
      → I (tx ∷ rest) s
      → After
          (λ _. I [])
          (λ _. ⊥)
          (BlamesOne (tx ∷ rest))
          (no_slots tx rest s).0
          (no_slots tx rest s).1
  unfolding no_slots After BlamesOne
  no_slots-After tx rest s h = elim (Bool-cases (tx.atomic_group_id == empty_atomic_group_id)) [
    | inl e ↦ rw e (k.full tx rest s (ground (arith, e)) h)
    | inr n ↦ rw n (inl (record { atomic = ground (arith, n); id = refl; failed_tx_id = refl }))
  ]

  select_txs-Leads :
      (txs : List PoolL2Tx)
      → Leads (I txs) (λ _. I []) (λ _. ⊥) (BlamesOne txs) (select_txs c w future txs)
  unfolding select_txs After BlamesOne
  select_txs-Leads [] = record { at = λ s h. h }
  select_txs-Leads (tx ∷ rest) = record {
    at = λ s h.
        let body : Leads (λ s. I (tx ∷ rest) s × HasSlot w.config s) (λ _. I []) (λ _. ⊥)
            (BlamesOne (tx ∷ rest))
            (iteration (select_tx c w future tx) >> select_txs c w future rest) =
          Leads->> {Q = I rest} _ _
            (Leads-weaken _ (λ g. inl)
              (Leads-iteration _ (select_tx-Leads c w future tx (k.steps tx rest))))
            (Leads-weaken _ (λ g. inr) (select_txs-Leads rest)) in
        elim (Bool-cases (can_add_l2_tx s.n_l1 s.n_l2 w.config)) [
          | inl e ↦ rw e (body.at s (h, e))
          | inr e ↦ rw e (no_slots-After tx rest s h)
        ];
  }

  pub process_l2_txs-After :
      (tp : TxProcessor) (n_l1 n_l2 : ℕ) (txs : List PoolL2Tx) (r : Flow (Unit {0})) (s : Selection)
      → I txs (begin tp n_l1 n_l2)
      → process_l2_txs c w future tp n_l1 n_l2 txs ≡ (r, s)
      → After (λ _. I []) (λ _. ⊥) (BlamesOne txs) r s
  unfolding process_l2_txs
  process_l2_txs-After tp n_l1 n_l2 txs r s h done =
      subst (λ x. After (λ _. I []) (λ _. ⊥) (BlamesOne txs) x.0 x.1) done
        ((select_txs-Leads txs).at (begin tp n_l1 n_l2) h)
