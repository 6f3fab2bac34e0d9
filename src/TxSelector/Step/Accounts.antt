-- ===== src/TxSelector/Step/Accounts.antt =====
-- One walk over the body of the loop of `processL2Txs`: what the five ways to write to the variables
-- keep, the creation of the accounts keeps.
use han_hermez_node.Crypto.{Crypto}
use han_hermez_node.Common.Account.{ff_addr}
use han_hermez_node.Common.Ids.{idx_user_threshold}
use han_hermez_node.Common.Tx.{L1Tx, PoolL2Tx}
use han_hermez_node.TxProcessor.State.{TxProcessor, Config}
use han_hermez_node.TxProcessor.Process.{process_l1_tx}
use han_hermez_node.TxSelector.State.{
  Setup, Selection, AccountCreationAuth, FailedAtomicGroup,
  can_add_l2_tx_that_needs_new_coord_l1_tx, empty_atomic_group_id, empty_eth_signature,
}
use han_hermez_node.TxSelector.Pick.{pure, add_non_selected, add_unforjable}
use han_hermez_node.TxSelector.Pick.Leads.{
  After, Leads, Leads->>=, Leads->>, Leads-pure, Leads-gets, Leads-lift, Leads-process,
  Leads-modify, Leads-require, Leads-discard,
}
use han_hermez_node.TxSelector.Receiver.{NewReceiver, process_tx_to_eth_addr_bjj}
use han_hermez_node.TxSelector.Receiver.Space.{process_tx_to_eth_addr_bjj-HasSpace}
use han_hermez_node.TxSelector.Step.{
  add_l1_coordinator_tx, count_l1, init_fee, add_coord_account, ensure_coord_account, add_receiver,
  create_receiver, ensure_receiver,
}
use han_hermez_node.TxSelector.Step.Ids.{SameIds}
use han_hermez_node.Prelude.{
  ℕ, ◌+◌, ◌≡◌, refl, sym, ◌∙◌, ◌≢◌, ◌⊎◌, inl, inr, true, Option, none, some, List, [], ◌∷◌, ◌++◌,
  arith, leb, ◌==◌, Bool-cases, Option-cases, Result-cases, lookup,
}

-- `P` holds until the transaction `tx` is selected or rejected, and `R` from there.
pub record Steps (config : Config) (tx : PoolL2Tx) (P R : Selection → Type 0) : Type 0 where
  pub at_tp : (p : TxProcessor) (s : Selection) → P s → P (record s { tp = p })
  pub at_l1 :
      (l1 : L1Tx) (auth : ℕ) (s : Selection)
      → can_add_l2_tx_that_needs_new_coord_l1_tx s.n_l1 s.n_l2 config ≡ true
      → P s
      → P (count_l1 (add_l1_coordinator_tx l1 auth s))
  pub at_unforjable :
      (tx' : PoolL2Tx) (s : Selection)
      → tx.atomic_group_id ≡ empty_atomic_group_id
      → SameIds tx tx'
      → P s
      → R (add_unforjable tx' s)
  pub at_non_selected :
      (tx' : PoolL2Tx) (s : Selection)
      → tx.atomic_group_id ≡ empty_atomic_group_id
      → SameIds tx tx'
      → P s
      → R (add_non_selected tx' s)
  pub at_selected :
      (tx' : PoolL2Tx) (s : Selection)
      → SameIds tx tx'
      → P s
      → R (record s { n_l2 = s.n_l2 + 1; selected = s.selected ++ tx' ∷ [] })

-- The group that fails is that of the transaction at hand.
pub record Blames (tx : PoolL2Tx) (g : FailedAtomicGroup) : Type 0 where
  pub atomic : tx.atomic_group_id ≢ empty_atomic_group_id
  pub id : g.id ≡ tx.atomic_group_id
  pub failed_tx_id : g.failed_tx_id ≡ tx.tx_id

module _ (c : Crypto) (w : Setup) (future : List L1Tx) (tx0 : PoolL2Tx) {P R : Selection → Type 0}
    (k : Steps w.config tx0 P R) where
  pub blame :
      {tx : PoolL2Tx} {code : ℕ}
      → SameIds tx0 tx
      → tx.atomic_group_id ≢ empty_atomic_group_id
      → Blames tx0 (record { id = tx.atomic_group_id; failed_tx_id = tx.tx_id; reason = code })
  blame same a = record {
    atomic = λ e. a (same.group ∙ e);
    id = same.group;
    failed_tx_id = same.tx_id;
  }

  pub marked :
      {tx : PoolL2Tx} {code : ℕ} → SameIds tx0 tx → SameIds tx0 (record tx { error_code = code })
  marked same = record { tx_id = same.tx_id; group = same.group }

  pub at_init_fee : (idx : ℕ) (s : Selection) → P s → P (init_fee idx s)
  at_init_fee idx s h = elim (Option-cases (lookup idx s.tp.accumulated_fees)) [
    | inl e ↦ rw (e, init_fee) (k.at_tp _ s h)
    | inr (x, e) ↦ rw (e, init_fee) h
  ]

  add_coord_account-Leads :
      (tx : PoolL2Tx) (l1 : Option L1Tx)
      → SameIds tx0 tx
      → Leads P (λ _. P) R (Blames tx0) (add_coord_account c w future tx l1)
  unfolding add_coord_account
  add_coord_account-Leads tx none same = Leads-pure tt (λ s h. h)
  add_coord_account-Leads tx (some l1) same =
      let Space : Selection → Type 0 =
        λ s. can_add_l2_tx_that_needs_new_coord_l1_tx s.n_l1 s.n_l2 w.config ≡ true in
      Leads->>=
        {Q = λ b s. P s × (b ≡ can_add_l2_tx_that_needs_new_coord_l1_tx s.n_l1 s.n_l2 w.config)} _ _
        (Leads-gets _ (λ s h. (h, refl)))
        λ b.
          Leads->> {Q = λ s. P s × Space s} _ _
            (Leads-require _ _ tx b (λ e s h. (h.0, sym h.1 ∙ e))
              (λ g s h. k.at_non_selected _ s (sym same.group ∙ g) (marked same) h.0) (blame same))
            (Leads->> {Q = λ s. P (count_l1 s)} _ _ (Leads-modify _ (λ s h. k.at_l1 l1 _ s h.1 h.0))
              (Leads->> {Q = λ s. P (count_l1 s)} _ _
                (Leads-process (process_l1_tx c l1) (λ a s h. k.at_tp _ (count_l1 s) h))
                (Leads-modify _ (λ s h. h))))

  pub ensure_coord_account-Leads :
      (tx : PoolL2Tx)
      → SameIds tx0 tx
      → Leads P (λ _. P) R (Blames tx0) (ensure_coord_account c w future tx)
  unfolding ensure_coord_account
  ensure_coord_account-Leads tx same = Leads->>= {Q = λ _. P} _ _ (Leads-gets _ (λ s h. h)) λ s.
      Leads->>= {Q = λ _. P} _ _ (Leads-lift _ (λ a s e h. h))
        λ l1. add_coord_account-Leads tx l1 same

  -- The writes of a receiver's creation: there is always a signature to keep.
  add_receiver-Leads :
      (tx : PoolL2Tx) (r : NewReceiver) (l1 : L1Tx)
      → r.l1_coordinator_tx ≡ some l1
      → ((tx.to_eth_addr == ff_addr) ≡ true) ⊎ ((a : AccountCreationAuth) × (r.acc_auth ≡ some a))
      → Leads
          (λ s. P s × (can_add_l2_tx_that_needs_new_coord_l1_tx s.n_l1 s.n_l2 w.config ≡ true))
          (λ _. P)
          R
          (Blames tx0)
          (add_receiver c w future tx r)
  unfolding add_receiver
  add_receiver-Leads tx r l1 made auth = rw made (
      Leads->> {Q = λ s. P (count_l1 s)} _ _
        (Leads-modify _ λ s h. elim (Bool-cases (tx.to_eth_addr == ff_addr)) [
          | inl e ↦ rw e (k.at_l1 l1 empty_eth_signature s h.1 h.0)
          | inr n ↦ elim auth [
            | inl e ↦ ground (arith, e, n)
            | inr (x, e) ↦ rw (n, e) (k.at_l1 l1 x.signature s h.1 h.0)
          ]
        ])
        (Leads->> {Q = λ s. P (count_l1 s)} _ _
          (Leads-process (process_l1_tx c l1) (λ a s h. k.at_tp _ (count_l1 s) h))
          (Leads-modify _ (λ s h. h))))

  -- No account has to be created.
  no_receiver-After :
      (tx : PoolL2Tx) (r : NewReceiver) (s : Selection)
      → r.l1_coordinator_tx ≡ none
      → P s
      → After
          (λ _. P)
          R
          (Blames tx0)
          (add_receiver c w future tx r s).0
          (add_receiver c w future tx r s).1
  unfolding add_receiver After pure
  no_receiver-After tx r s e h = rw e h

  create_receiver-Leads :
      (tx : PoolL2Tx)
      → SameIds tx0 tx
      → Leads P (λ _. P) R (Blames tx0) (create_receiver c w future tx)
  unfolding create_receiver
  create_receiver-Leads tx same = record {
    at = λ s h.
        elim (Result-cases
          (process_tx_to_eth_addr_bjj w future s.n_l1 s.n_l2 s.position_l1 tx s.tp.state)) [
            | inl (r, e) ↦ elim (Option-cases r.l1_coordinator_tx) [
              | inl n ↦ rw (e, create_receiver) (no_receiver-After tx r s n h)
              | inr (l1, made) ↦
                  let has =
                    process_tx_to_eth_addr_bjj-HasSpace w future s.n_l1 s.n_l2 s.position_l1 tx
                      s.tp.state r l1 e made in
                  rw (e, create_receiver)
                    ((add_receiver-Leads tx r l1 made has.auth).at s (h, has.space))
            ]
            | inr (x, e) ↦
                rw (e, create_receiver)
                  ((Leads-discard add_non_selected _ tx
                      (λ g s h. k.at_non_selected _ s (sym same.group ∙ g) (marked same) h)
                      (blame same)).at
                    s h)
          ];
  }

  pub ensure_receiver-Leads :
      (tx : PoolL2Tx)
      → SameIds tx0 tx
      → Leads P (λ _. P) R (Blames tx0) (ensure_receiver c w future tx)
  unfolding ensure_receiver After
  ensure_receiver-Leads tx same = record {
    at = λ s h. elim (Bool-cases (tx.to_idx == 0)) [
      | inl e ↦ rw e ((create_receiver-Leads tx same).at s h)
      | inr n ↦ elim (Bool-cases (leb idx_user_threshold tx.to_idx)) [
        | inl e ↦
            rw (n, e)
              ((Leads-require add_non_selected _ tx _ (λ t s h. h)
                  (λ g s h. k.at_non_selected _ s (sym same.group ∙ g) (marked same) h)
                  (blame same)).at
                s h)
        | inr m ↦ rw (n, m) h
      ]
    ];
  }
