-- ===== src/Common/Signing/Data.antt =====
-- What the numbers that are signed say of a transaction (`TxCompressedData`, `RqTxCompressedDataV2` and
-- `HashToSign`, common/pooll2tx.go).
use han_hermez_node.Bytes.{be, of_be}
use han_hermez_node.Crypto.{Crypto}
use han_hermez_node.Common.Ids.{idx_bytes, nonce_bytes, token_id_bytes}
use han_hermez_node.Common.Tx.{PoolL2Tx}
use han_hermez_node.Common.Codec.{amount_bytes, amount_from_bytes}
use han_hermez_node.Common.Signing.{
  byte_of, compressed_layout, compressed_data_v2, tx_compressed_data, amount_element,
}
use han_hermez_node.Common.Signing.Fields.{
  idx_bytes-Fits, nonce_bytes-Fits, amount_bytes-Fits, bytes29, bytes29-binds, bytes28,
  bytes28-binds, bytes_e1, bytes_e1-binds, be-injective,
}
use han_hermez_node.Prelude.{
  chain_value, ℕ, ◌^◌, ◌<◌, ◌≡◌, sym, ap, ◌∙◌, Bool, Option, none, some, List, ◌∷◌, ◌++◌, arith,
  drop, Error, ok, ok_or,
}

pub ok-injective : {x y : ℕ} → ok x ≡ ok y → x ≡ y
ok-injective e = cc

pub ok_or-eq-ok : (o : Option ℕ) (e : Error) {h : ℕ} → ok_or o e ≡ ok h → o ≡ some h
ok_or-eq-ok none e h = cc
ok_or-eq-ok (some x) e h = ap some (ok-injective h)

-- The shape of a successful second version.
compressed_data_v2-shape :
    (s : Bool) (fee nonce token amount to from : ℕ) {d : ℕ}
    → compressed_data_v2 s fee nonce token amount to from ≡ ok d
    → (x : ℕ) × (d ≡ of_be (bytes28 s fee nonce token x to from))
      × (amount_from_bytes (drop 3 (be 8 x)) ≡ ok amount)
      × (of_be (drop 3 (be 8 nonce)) ≡ nonce)
      × (of_be (drop 2 (be 8 to)) ≡ to)
      × (of_be (drop 2 (be 8 from)) ≡ from)
unfolding compressed_data_v2
compressed_data_v2-shape s fee nonce token amount to from e =
    let put : List ℕ → List ℕ → List ℕ → List ℕ → ℕ =
      λ a n t f. of_be (byte_of s ∷ fee ∷ (n ++ (token_id_bytes token ++ (a ++ (t ++ f))))) in
    let (a, ha, e1) = chain_value (amount_bytes amount) _ e in
    let (n, hn, e2) = chain_value (nonce_bytes nonce) _ e1 in
    let (t, ht, e3) = chain_value (idx_bytes to) _ e2 in
    let (f, hf, e4) = chain_value (idx_bytes from) _ e3 in
    let (x, sa, ra) = amount_bytes-Fits amount ha in
    let (sn, rn) = nonce_bytes-Fits nonce hn in
    let (st, rt) = idx_bytes-Fits to ht in
    let (sf, rf) = idx_bytes-Fits from hf in
    (
      x,
      sym (ok-injective e4)
          ∙ ap (λ (q : List ℕ). put q n t f) sa
          ∙ ap (λ (q : List ℕ). put (drop 3 (be 8 x)) q t f) sn
          ∙ ap (λ (q : List ℕ). put (drop 3 (be 8 x)) (drop 3 (be 8 nonce)) q f) st
          ∙ ap (put (drop 3 (be 8 x)) (drop 3 (be 8 nonce)) (drop 2 (be 8 to))) sf,
      ra,
      rn,
      rt,
      rf,
    )

-- The parts of the second version are those of any other transaction with the same data.
pub compressed_data_v2-binds :
    (s t : Bool) (fee nonce token amount to from fee' nonce' token' amount' to' from' d : ℕ)
    → fee < 256
    → fee' < 256
    → token < 2 ^ 32
    → token' < 2 ^ 32
    → compressed_data_v2 s fee nonce token amount to from ≡ ok d
    → compressed_data_v2 t fee' nonce' token' amount' to' from' ≡ ok d
    → (s ≡ t)
      × (fee ≡ fee')
      × (nonce ≡ nonce')
      × (token ≡ token')
      × (amount ≡ amount')
      × (to ≡ to')
      × (from ≡ from')
compressed_data_v2-binds s t fee nonce token amount to from fee' nonce' token' amount' to' from' d
      hf hf' ht ht' e e' =
    let (x, sd, ra, rn, rt, rf) = compressed_data_v2-shape s fee nonce token amount to from e in
    let (x', sd', ra', rn', rt', rf') =
      compressed_data_v2-shape t fee' nonce' token' amount' to' from' e' in
    let (b0, b1, b2, b3, b4, b5, b6) =
      bytes28-binds s t fee nonce token x to from fee' nonce' token' x' to' from' hf hf'
        (sym sd ∙ sd') in
    (
      b0,
      b1,
      sym rn ∙ ap of_be b2 ∙ rn',
      be-injective 4 token token' (omega (arith, ht)) (omega (arith, ht')) b3,
      ok-injective (sym ra ∙ ap amount_from_bytes b4 ∙ ra'),
      sym rt ∙ ap of_be b5 ∙ rt',
      sym rf ∙ ap of_be b6 ∙ rf',
    )

amount_element-shape :
    (tx : PoolL2Tx) {d : ℕ}
    → amount_element tx ≡ ok d
    → (x : ℕ) × (d ≡ of_be (bytes_e1 tx.max_num_batch x tx.to_eth_addr))
      × (amount_from_bytes (drop 3 (be 8 x)) ≡ ok tx.amount)
unfolding amount_element
amount_element-shape tx e =
    let (a, ha, e1) = chain_value (amount_bytes tx.amount) _ e in
    let (x, sa, ra) = amount_bytes-Fits tx.amount ha in
    (
      x,
      sym (ok-injective e1)
          ∙ ap (λ (q : List ℕ). of_be (be 4 tx.max_num_batch ++ (q ++ be 20 tx.to_eth_addr))) sa,
      ra,
    )

pub amount_element-binds :
    (tx tx' : PoolL2Tx) (d : ℕ)
    → tx.max_num_batch < 2 ^ 32
    → tx'.max_num_batch < 2 ^ 32
    → tx.to_eth_addr < 2 ^ 160
    → tx'.to_eth_addr < 2 ^ 160
    → amount_element tx ≡ ok d
    → amount_element tx' ≡ ok d
    → (tx.max_num_batch ≡ tx'.max_num_batch)
      × (tx.amount ≡ tx'.amount)
      × (tx.to_eth_addr ≡ tx'.to_eth_addr)
amount_element-binds tx tx' d hb hb' ha ha' e e' =
    let (x, sd, ra) = amount_element-shape tx e in
    let (x', sd', ra') = amount_element-shape tx' e' in
    let (b0, b1, b2) =
      bytes_e1-binds tx.max_num_batch x tx.to_eth_addr tx'.max_num_batch x' tx'.to_eth_addr
        (sym sd ∙ sd') in
    (
      be-injective 4 tx.max_num_batch tx'.max_num_batch (omega (arith, hb)) (omega (arith, hb')) b0,
      ok-injective (sym ra ∙ ap amount_from_bytes b1 ∙ ra'),
      be-injective 20 tx.to_eth_addr tx'.to_eth_addr (omega (arith, ha)) (omega (arith, ha')) b2,
    )

module _ (c : Crypto) where
  tx_compressed_data-shape :
      (chain : ℕ) (tx : PoolL2Tx) {d : ℕ}
      → tx_compressed_data c chain tx ≡ ok d
      → (d
          ≡ of_be (
              bytes29
                (c.unpack_sign_y tx.to_bjj).0
                tx.fee
                tx.nonce
                tx.token_id
                tx.to_idx
                tx.from_idx
                chain))
        × (of_be (drop 3 (be 8 tx.nonce)) ≡ tx.nonce)
        × (of_be (drop 2 (be 8 tx.to_idx)) ≡ tx.to_idx)
        × (of_be (drop 2 (be 8 tx.from_idx)) ≡ tx.from_idx)
  unfolding tx_compressed_data
  tx_compressed_data-shape chain tx e =
      let put : List ℕ → List ℕ → List ℕ → ℕ = λ n t f. of_be (
        byte_of (c.unpack_sign_y tx.to_bjj).0
        ∷ tx.fee
        ∷ compressed_layout n (token_id_bytes tx.token_id) t f (be 2 chain)) in
      let (n, hn, e2) = chain_value (nonce_bytes tx.nonce) _ e in
      let (t, ht, e3) = chain_value (idx_bytes tx.to_idx) _ e2 in
      let (f, hf, e4) = chain_value (idx_bytes tx.from_idx) _ e3 in
      let (sn, rn) = nonce_bytes-Fits tx.nonce hn in
      let (st, rt) = idx_bytes-Fits tx.to_idx ht in
      let (sf, rf) = idx_bytes-Fits tx.from_idx hf in
      (
        sym (ok-injective e4)
            ∙ ap (λ (q : List ℕ). put q t f) sn
            ∙ ap (λ (q : List ℕ). put (drop 3 (be 8 tx.nonce)) q f) st
            ∙ ap (put (drop 3 (be 8 tx.nonce)) (drop 2 (be 8 tx.to_idx))) sf,
        rn,
        rt,
        rf,
      )

  pub tx_compressed_data-binds :
      (chain chain' : ℕ) (tx tx' : PoolL2Tx) (d : ℕ)
      → chain < 2 ^ 16
      → chain' < 2 ^ 16
      → tx.fee < 256
      → tx'.fee < 256
      → tx.token_id < 2 ^ 32
      → tx'.token_id < 2 ^ 32
      → tx_compressed_data c chain tx ≡ ok d
      → tx_compressed_data c chain' tx' ≡ ok d
      → ((c.unpack_sign_y tx.to_bjj).0 ≡ (c.unpack_sign_y tx'.to_bjj).0)
        × (tx.fee ≡ tx'.fee)
        × (tx.nonce ≡ tx'.nonce)
        × (tx.token_id ≡ tx'.token_id)
        × (tx.to_idx ≡ tx'.to_idx)
        × (tx.from_idx ≡ tx'.from_idx)
        × (chain ≡ chain')
  tx_compressed_data-binds chain chain' tx tx' d hc hc' hf hf' ht ht' e e' =
      let (sd, rn, rt, rf) = tx_compressed_data-shape chain tx e in
      let (sd', rn', rt', rf') = tx_compressed_data-shape chain' tx' e' in
      let (b0, b1, b2, b3, b4, b5, b6) =
        bytes29-binds (c.unpack_sign_y tx.to_bjj).0 (c.unpack_sign_y tx'.to_bjj).0 tx.fee tx.nonce
          tx.token_id tx.to_idx tx.from_idx chain tx'.fee tx'.nonce tx'.token_id tx'.to_idx
          tx'.from_idx chain' hf hf' (sym sd ∙ sd') in
      (
        b0,
        b1,
        sym rn ∙ ap of_be b2 ∙ rn',
        be-injective 4 tx.token_id tx'.token_id (omega (arith, ht)) (omega (arith, ht')) b3,
        sym rt ∙ ap of_be b4 ∙ rt',
        sym rf ∙ ap of_be b5 ∙ rf',
        be-injective 2 chain chain' (omega (arith, hc)) (omega (arith, hc')) b6,
      )
