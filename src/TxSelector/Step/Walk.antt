-- ===== src/TxSelector/Step/Walk.antt =====
-- One walk over the body of the loop of `processL2Txs`: what the five ways to write to the variables
-- keep, the whole body keeps.
use han_hermez_node.Crypto.{Crypto}
use han_hermez_node.Common.Tx.{L1Tx, PoolL2Tx}
use han_hermez_node.TxProcessor.Process.{L2Result, process_l2_tx}
use han_hermez_node.TxSelector.State.{Setup, Selection}
use han_hermez_node.TxSelector.Pick.{add_non_selected}
use han_hermez_node.TxSelector.Pick.Leads.{
  After, Leads, Leads-given, Leads->>=, Leads->>, Leads-pure, Leads-gets, Leads-lift, Leads-modify,
  Leads-require, Leads-discard,
}
use han_hermez_node.TxSelector.Step.{check_sender, settle, finish_tx, take_tx, select_tx, noted}
use han_hermez_node.TxSelector.Step.Ids.{
  SameIds, SameIds-refl, SameIds-trans, process_l2_tx-SameIds, noted-SameIds,
}
use han_hermez_node.TxSelector.Step.Accounts.{
  Steps, Blames, blame, marked, at_init_fee, ensure_coord_account-Leads, ensure_receiver-Leads,
}
use han_hermez_node.Prelude.{ℕ, ◌≡◌, refl, sym, ◌∙◌, List, [], ◌∷◌, Result, ok, err}

module _ (c : Crypto) (w : Setup) (future : List L1Tx) (tx0 : PoolL2Tx) {P R : Selection → Type 0}
    (k : Steps w.config tx0 P R) where
  settle-Leads :
      (tx : PoolL2Tx) (r : Result L2Result)
      → SameIds tx0 tx
      → ((done : L2Result) → r ≡ ok done → SameIds tx0 done.tx)
      → Leads P (λ _. R) R (Blames tx0) (settle tx r)
  unfolding settle After
  settle-Leads tx (ok done) same ids = record { at = λ s h. k.at_selected _ s (ids done refl) h }
  settle-Leads tx (err x) same ids =
      Leads-discard add_non_selected _ tx
        (λ g s h. k.at_non_selected _ s (sym same.group ∙ g) (marked c w future tx0 k same) h)
        (blame c w future tx0 k same)

  finish_tx-Leads :
      (tx : PoolL2Tx) (coord_idx : ℕ)
      → SameIds tx0 tx
      → Leads P (λ _. R) R (Blames tx0) (finish_tx c w future tx coord_idx)
  unfolding finish_tx
  finish_tx-Leads tx idx same = record {
    at = λ s h.
        let m = (tx.token_id, idx) ∷ [] in
        let out = process_l2_tx c m tx s.tp in
        (settle-Leads (noted c tx s.tp) out.0 (SameIds-trans same (noted-SameIds c tx s.tp))
            (λ done e. SameIds-trans same (process_l2_tx-SameIds c m tx s.tp done e))).at
          (record s { tp = out.1 }) (k.at_tp _ s h);
  }

  take_tx-Leads :
      (tx : PoolL2Tx) → SameIds tx0 tx → Leads P (λ _. R) R (Blames tx0) (take_tx c w future tx)
  unfolding take_tx
  take_tx-Leads tx same = Leads->>= {Q = λ _. P} _ _ (Leads-gets _ (λ s h. h)) λ state.
      Leads->>= {Q = λ _. P} _ _ (Leads-lift _ (λ a s e h. h)) λ idx.
        Leads->> {Q = P} _ _ (Leads-modify _ (λ s h. at_init_fee c w future tx0 k idx s h))
          (finish_tx-Leads tx idx same)

  check_sender-Leads :
      Leads P (λ tx s. P s × SameIds tx0 tx) R (Blames tx0) (check_sender c w future tx0)
  unfolding check_sender
  check_sender-Leads = Leads->>= {Q = λ _. P} _ _ (Leads-gets _ (λ s h. h)) λ n.
      Leads->> {Q = P} _ _
        (Leads-require _ _ tx0 _ (λ e s h. h)
          (λ g s h. k.at_unforjable _ s g (marked c w future tx0 k SameIds-refl) h)
          (blame c w future tx0 k SameIds-refl))
        (Leads->> {Q = P} _ _
          (Leads-require _ _ tx0 _ (λ e s h. h)
            (λ g s h. k.at_unforjable _ s g (marked c w future tx0 k SameIds-refl) h)
            (blame c w future tx0 k SameIds-refl))
          (Leads->>= {Q = λ _. P} _ _ (Leads-gets _ (λ s h. h)) λ state.
            Leads->>= {Q = λ _. P} _ _ (Leads-lift _ (λ a s e h. h)) λ sender.
              let tx : PoolL2Tx = record tx0 { token_id = sender.token_id } in
              let same : SameIds tx0 tx = record { tx_id = refl; group = refl } in
              Leads->> {Q = P} _ _
                (Leads-require _ _ tx _ (λ e s h. h)
                  (λ g s h.
                    k.at_non_selected _ s (sym same.group ∙ g) (marked c w future tx0 k same) h)
                  (blame c w future tx0 k same))
                (Leads->> {Q = P} _ _
                  (Leads-require _ _ tx _ (λ e s h. h)
                    (λ g s h.
                      k.at_non_selected _ s (sym same.group ∙ g) (marked c w future tx0 k same) h)
                    (blame c w future tx0 k same))
                  (Leads-pure tx (λ s h. (h, same))))))

  -- The body that starts in `P` ends in `R`, or fails the group of the transaction.
  pub select_tx-Leads : Leads P (λ _. R) R (Blames tx0) (select_tx c w future tx0)
  unfolding select_tx
  select_tx-Leads = Leads->>= {Q = λ tx s. P s × SameIds tx0 tx} _ _ check_sender-Leads λ tx.
      Leads-given λ same.
        Leads->> {Q = P} _ _ (ensure_coord_account-Leads c w future tx0 k tx same) (
          Leads->> {Q = P} _ _ (ensure_receiver-Leads c w future tx0 k tx same)
            (take_tx-Leads tx same))
