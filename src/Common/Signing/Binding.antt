-- ===== src/Common/Signing/Binding.antt =====
-- A signature binds every field of the transaction (`HashToSign`, common/pooll2tx.go): two transactions
-- with one hash agree in all that the processor and the atomic groups read.
use han_hermez_node.Crypto.{Crypto, CryptoLaws}
use han_hermez_node.Common.Account.{empty_bjj_comp}
use han_hermez_node.Common.Tx.{PoolL2Tx}
use han_hermez_node.Common.Signing.{
  tx_compressed_data, key_sign, rq_amount_of, rq_tx_compressed_data_v2, amount_element,
  hash_to_sign,
}
use han_hermez_node.Common.Signing.Data.{
  ok_or-eq-ok, compressed_data_v2-binds, amount_element-binds, tx_compressed_data-binds,
}
use han_hermez_node.Prelude.{
  chain_value, ℕ, ◌^◌, ◌<◌, ◌≡◌, refl, sym, ap, ◌∙◌, inl, inr, Bool, false, some, List, [], ◌∷◌,
  ◌==◌, ==_iff, Bool-cases, get_or, Error, ok,
}

-- The fields that fit their words.
pub record FitsPool (tx : PoolL2Tx) : Type 0 where
  pub fee : tx.fee < 256
  pub token_id : tx.token_id < 2 ^ 32
  pub max_num_batch : tx.max_num_batch < 2 ^ 32
  pub to_eth_addr : tx.to_eth_addr < 2 ^ 160
  pub to_bjj : tx.to_bjj < 2 ^ 256
  pub rq_fee : tx.rq_fee < 256
  pub rq_token_id : tx.rq_token_id < 2 ^ 32
  pub rq_to_bjj : tx.rq_to_bjj < 2 ^ 256

-- Two transactions that ask for the same, of themselves and of the transaction that they require.
pub record SameSigned (tx tx' : PoolL2Tx) : Type 0 where
  pub from_idx : tx.from_idx ≡ tx'.from_idx
  pub to_idx : tx.to_idx ≡ tx'.to_idx
  pub to_eth_addr : tx.to_eth_addr ≡ tx'.to_eth_addr
  pub to_bjj : tx.to_bjj ≡ tx'.to_bjj
  pub token_id : tx.token_id ≡ tx'.token_id
  pub amount : tx.amount ≡ tx'.amount
  pub fee : tx.fee ≡ tx'.fee
  pub nonce : tx.nonce ≡ tx'.nonce
  pub max_num_batch : tx.max_num_batch ≡ tx'.max_num_batch
  pub rq_from_idx : tx.rq_from_idx ≡ tx'.rq_from_idx
  pub rq_to_idx : tx.rq_to_idx ≡ tx'.rq_to_idx
  pub rq_to_eth_addr : tx.rq_to_eth_addr ≡ tx'.rq_to_eth_addr
  pub rq_to_bjj : tx.rq_to_bjj ≡ tx'.rq_to_bjj
  pub rq_token_id : tx.rq_token_id ≡ tx'.rq_token_id
  pub rq_amount : rq_amount_of tx ≡ rq_amount_of tx'
  pub rq_fee : tx.rq_fee ≡ tx'.rq_fee
  pub rq_nonce : tx.rq_nonce ≡ tx'.rq_nonce

module _ (c : Crypto) (laws : CryptoLaws c) where
  key-binds :
      (k k' : ℕ)
      → k < 2 ^ 256
      → k' < 2 ^ 256
      → (c.unpack_sign_y k).0 ≡ (c.unpack_sign_y k').0
      → (c.unpack_sign_y k).1 ≡ (c.unpack_sign_y k').1
      → k ≡ k'
  key-binds k k' h h' s y =
      sym (laws.pack-unpack k h)
      ∙ ap (λ (b : Bool). c.pack_sign_y b (c.unpack_sign_y k).1) s
      ∙ ap (c.pack_sign_y (c.unpack_sign_y k').0) y
      ∙ laws.pack-unpack k' h'

  -- The empty key has no sign, so that leaving its sign out loses nothing.
  key_sign-eq :
      (c.unpack_sign_y empty_bjj_comp).0 ≡ false → (k : ℕ) → key_sign c k ≡ (c.unpack_sign_y k).0
  key_sign-eq zero_sign k = elim (Bool-cases (k == empty_bjj_comp)) [
    | inl empty ↦
        rw empty (sym (ap (λ (t : ℕ). (c.unpack_sign_y t).0) ((==_iff k 0).0 empty) ∙ zero_sign))
    | inr other ↦ rw other refl
  ]

  hash_to_sign-shape :
      (chain : ℕ) (tx : PoolL2Tx) {h : ℕ}
      → hash_to_sign c chain tx ≡ ok h
      → (d : ℕ) × (e1 : ℕ) × (rq : ℕ) × (tx_compressed_data c chain tx ≡ ok d)
        × (amount_element tx ≡ ok e1)
        × (rq_tx_compressed_data_v2 c tx ≡ ok rq)
        × (c.poseidon (
              d
              ∷ e1
              ∷ (c.unpack_sign_y tx.to_bjj).1
              ∷ rq
              ∷ tx.rq_to_eth_addr
              ∷ (c.unpack_sign_y tx.rq_to_bjj).1
              ∷ [])
            ≡ some h)
  unfolding hash_to_sign
  hash_to_sign-shape chain tx e =
      let (d, hd, e1) = chain_value (tx_compressed_data c chain tx) _ e in
      let (a, ha, e2) = chain_value (amount_element tx) _ e1 in
      let (rq, hrq, e3) = chain_value (rq_tx_compressed_data_v2 c tx) _ e2 in
      (d, a, rq, hd, ha, hrq, ok_or-eq-ok _ Error.poseidon_error e3)

  -- Given `CryptoLaws` and that the empty key has no sign: two transactions with fields that fit their
  -- words and the same hash to sign, on chains of 16 bits, are for the same chain and agree in sender,
  -- receiver (index, address and key), token, amount, fee, nonce, last batch, and in all of the
  -- transaction that they require, where no requested amount counts as 0.
  pub hash_to_sign-binds :
      (chain chain' : ℕ) (tx tx' : PoolL2Tx) (h : ℕ)
      → (c.unpack_sign_y empty_bjj_comp).0 ≡ false
      → chain < 2 ^ 16
      → chain' < 2 ^ 16
      → FitsPool tx
      → FitsPool tx'
      → hash_to_sign c chain tx ≡ ok h
      → hash_to_sign c chain' tx' ≡ ok h
      → (chain ≡ chain') × SameSigned tx tx'
  unfolding rq_tx_compressed_data_v2
  hash_to_sign-binds chain chain' tx tx' h zero_sign hc hc' fits fits' e e' =
      let (d, a, rq, hd, ha, hrq, hash) = hash_to_sign-shape chain tx e in
      let (d', a', rq', hd', ha', hrq', hash') = hash_to_sign-shape chain' tx' e' in
      let same = laws.poseidon-injective _ _ h hash hash' in
      let d_same : d ≡ d' = ap (λ (l : List ℕ). get_or l 0 0) same in
      let a_same : a ≡ a' = ap (λ (l : List ℕ). get_or l 1 0) same in
      let rq_same : rq ≡ rq' = ap (λ (l : List ℕ). get_or l 3 0) same in
      let (sign, fee, nonce, token, to, from, chains) =
        tx_compressed_data-binds c chain chain' tx tx' d hc hc' fits.fee fits'.fee fits.token_id
          fits'.token_id hd (hd' ∙ ap ok (sym d_same)) in
      let (batch, amount, addr) =
        amount_element-binds tx tx' a fits.max_num_batch fits'.max_num_batch fits.to_eth_addr
          fits'.to_eth_addr ha (ha' ∙ ap ok (sym a_same)) in
      let (rs, rfee, rnonce, rtoken, ramount, rto, rfrom) =
        compressed_data_v2-binds (key_sign c tx.rq_to_bjj) (key_sign c tx'.rq_to_bjj) tx.rq_fee
          tx.rq_nonce tx.rq_token_id (rq_amount_of tx) tx.rq_to_idx tx.rq_from_idx tx'.rq_fee
          tx'.rq_nonce tx'.rq_token_id (rq_amount_of tx') tx'.rq_to_idx tx'.rq_from_idx rq
          fits.rq_fee fits'.rq_fee fits.rq_token_id fits'.rq_token_id hrq
          (hrq' ∙ ap ok (sym rq_same)) in
      let sign_rq =
        sym (key_sign-eq zero_sign tx.rq_to_bjj) ∙ rs ∙ key_sign-eq zero_sign tx'.rq_to_bjj in
      (
        chains,
        record {
          from_idx = from;
          to_idx = to;
          to_eth_addr = addr;
          to_bjj =
              key-binds tx.to_bjj tx'.to_bjj fits.to_bjj fits'.to_bjj sign
                (ap (λ (l : List ℕ). get_or l 2 0) same);
          token_id = token;
          amount = amount;
          fee = fee;
          nonce = nonce;
          max_num_batch = batch;
          rq_from_idx = rfrom;
          rq_to_idx = rto;
          rq_to_eth_addr = ap (λ (l : List ℕ). get_or l 4 0) same;
          rq_to_bjj =
              key-binds tx.rq_to_bjj tx'.rq_to_bjj fits.rq_to_bjj fits'.rq_to_bjj sign_rq
                (ap (λ (l : List ℕ). get_or l 5 0) same);
          rq_token_id = rtoken;
          rq_amount = ramount;
          rq_fee = rfee;
          rq_nonce = rnonce;
        },
      )
