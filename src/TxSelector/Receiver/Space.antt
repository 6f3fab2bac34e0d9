-- ===== src/TxSelector/Receiver/Space.antt =====
-- A receiver's account is only created where there is space for it, and with an authorization unless
-- its address is the one that stands for a key alone (`processTxToEthAddrBJJ`).
use han_hermez_node.Common.Account.{empty_addr, ff_addr, empty_bjj_comp}
use han_hermez_node.Common.Tx.{L1Tx, PoolL2Tx}
use han_hermez_node.StateDb.{StateDb, get_idx_by_eth_addr, get_idx_by_eth_addr_bjj}
use han_hermez_node.TxSelector.State.{
  Setup, AccountCreationAuth, can_add_l2_tx_that_needs_new_coord_l1_tx,
}
use han_hermez_node.TxSelector.Receiver.{
  NewReceiver, create_account_l1_tx, receiver_auth, with_space, receiver_by_eth_addr,
  receiver_by_bjj, process_tx_to_eth_addr_bjj, check_pending_to_create_future_txs,
}
use han_hermez_node.Prelude.{
  ℕ, ◌≡◌, refl, subst, ◌⊎◌, inl, inr, true, not, ◌&&◌, none, some, List, arith, ◌==◌, if◌then◌else◌,
  Bool-cases, ok, Result-cases, is_ok,
}

module _ (w : Setup) (future : List L1Tx) (n_l1 n_l2 position : ℕ) (tx : PoolL2Tx)
    (s : StateDb) where
  -- What a created account comes with.
  pub record HasSpace (r : NewReceiver) : Type 0 where
    pub space : can_add_l2_tx_that_needs_new_coord_l1_tx n_l1 n_l2 w.config ≡ true
    pub auth :
        ((tx.to_eth_addr == ff_addr) ≡ true) ⊎ ((a : AccountCreationAuth) × (r.acc_auth ≡ some a))

  with_space-HasSpace :
      (r q : NewReceiver)
      → with_space w n_l1 n_l2 r ≡ ok q
      → ((tx.to_eth_addr == ff_addr) ≡ true) ⊎ ((a : AccountCreationAuth) × (r.acc_auth ≡ some a))
      → HasSpace q
  unfolding with_space
  with_space-HasSpace r q done auth =
      elim (Bool-cases (can_add_l2_tx_that_needs_new_coord_l1_tx n_l1 n_l2 w.config)) [
        | inl e ↦
            let is : r ≡ q = ground (arith, e, done) in
            record {
              space = e;
              auth =
                  subst
                    (λ x. ((tx.to_eth_addr == ff_addr) ≡ true) ⊎ ((a : _) × (x.acc_auth ≡ some a)))
                    is auth;
            }
        | inr e ↦ ground (arith, e, done)
      ]

  by_eth_addr-HasSpace :
      (q : NewReceiver) (l1 : L1Tx)
      → receiver_by_eth_addr w n_l1 n_l2 position tx s ≡ ok q
      → q.l1_coordinator_tx ≡ some l1
      → HasSpace q
  unfolding receiver_by_eth_addr
  by_eth_addr-HasSpace q l1 done made =
      elim (Bool-cases (
        if tx.to_bjj == empty_bjj_comp
        then is_ok (get_idx_by_eth_addr tx.to_eth_addr tx.token_id s)
        else is_ok (get_idx_by_eth_addr_bjj tx.to_eth_addr tx.to_bjj tx.token_id s))) [
          | inl known ↦ ground (arith, known, done, made)
          | inr missing ↦ elim (Result-cases (receiver_auth w tx)) [
            | inl (auth, e) ↦
                let r : NewReceiver = record {
                  l1_coordinator_tx =
                      some (create_account_l1_tx position auth.eth_addr auth.bjj tx.token_id);
                  acc_auth = some auth;
                } in
                with_space-HasSpace r q (ground (arith, e, missing, done)) (inr (auth, refl))
            | inr (x, e) ↦ ground (arith, missing, done, e)
          ]
        ]

  by_bjj-HasSpace :
      (q : NewReceiver) (l1 : L1Tx)
      → (tx.to_eth_addr == ff_addr) ≡ true
      → receiver_by_bjj w n_l1 n_l2 position tx s ≡ ok q
      → q.l1_coordinator_tx ≡ some l1
      → HasSpace q
  unfolding receiver_by_bjj
  by_bjj-HasSpace q l1 ff done made =
      elim (Bool-cases (is_ok (get_idx_by_eth_addr_bjj tx.to_eth_addr tx.to_bjj tx.token_id s))) [
        | inl known ↦ ground (arith, known, done, made)
        | inr missing ↦
            let r : NewReceiver = record {
              l1_coordinator_tx =
                  some (create_account_l1_tx position tx.to_eth_addr tx.to_bjj tx.token_id);
              acc_auth = none;
            } in
            with_space-HasSpace r q (ground (arith, missing, done)) (inl ff)
      ]

  pub process_tx_to_eth_addr_bjj-HasSpace :
      (q : NewReceiver) (l1 : L1Tx)
      → process_tx_to_eth_addr_bjj w future n_l1 n_l2 position tx s ≡ ok q
      → q.l1_coordinator_tx ≡ some l1
      → HasSpace q
  unfolding process_tx_to_eth_addr_bjj with_space
  process_tx_to_eth_addr_bjj-HasSpace q l1 done made =
      elim (Bool-cases
        (check_pending_to_create_future_txs future tx.token_id tx.to_eth_addr tx.to_bjj)) [
          | inl pending ↦ ground (arith, pending, done)
          | inr free ↦
              elim (Bool-cases
                (not (tx.to_eth_addr == empty_addr) && not (tx.to_eth_addr == ff_addr))) [
                  | inl named ↦ by_eth_addr-HasSpace q l1 (ground (arith, named, free, done)) made
                  | inr unnamed ↦
                      elim (Bool-cases
                        (tx.to_eth_addr == ff_addr && not (tx.to_bjj == empty_bjj_comp))) [
                          | inl key ↦
                              by_bjj-HasSpace q l1 (ground (arith, key))
                                (ground (arith, key, unnamed, free, done)) made
                          | inr none_of ↦
                              let is : with_space w n_l1 n_l2
                                    (record { l1_coordinator_tx = none; acc_auth = none })
                                  ≡ ok q =
                                ground (arith, none_of, unnamed, free, done) in
                              ground (arith, is, made)
                        ]
                ]
        ]
