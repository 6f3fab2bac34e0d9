-- ===== src/Common/Signing/TxIds.antt =====
-- Identifiers of transactions (`SetID` of common/l1tx.go, `CalculateTxID` of common/l2tx.go): which
-- transactions can share one.
use han_hermez_node.Bytes.{be, of_be}
use han_hermez_node.Common.Ids.{idx_bytes, nonce_bytes, token_id_bytes}
use han_hermez_node.Common.Tx.{L1Tx, L2Tx}
use han_hermez_node.Common.Codec.{amount_bytes, amount_from_bytes}
use han_hermez_node.Common.Signing.{tx_id_of, l1_prefix, calculate_tx_id, l1_set_id}
use han_hermez_node.Common.Signing.Fields.{
  idx_bytes-Fits, nonce_bytes-Fits, amount_bytes-Fits, be-injective,
}
use han_hermez_node.Common.Signing.Data.{ok-injective, ok_or-eq-ok}
use han_hermez_node.Prelude.{
  chain_value, ℕ, ◌^◌, ◌≤◌, ◌<◌, ◌≡◌, refl, sym, ap, ◌∙◌, Bool, Option, some, List, [], ◌∷◌, ◌++◌,
  arith, if◌then◌else◌, length, drop, get_or, All, slice, Error, ok, ok_or,
}

-- What is relied on of Keccak256: 32 bytes, and no two inputs of a length that is hashed here, up to 21
-- bytes, have one hash.
pub record HashLaws (keccak256 : List ℕ → ℕ) : Type 0 where
  pub range : (b : List ℕ) → keccak256 b < 256 ^ 32
  pub injective :
      (b b' : List ℕ)
      → length b ≡ length b'
      → length b ≤ 21
      → All (λ x. x < 256) b
      → All (λ x. x < 256) b'
      → keccak256 b ≡ keccak256 b'
      → b ≡ b'

tx_id_of-injective :
    (p p' h h' : ℕ)
    → h < 256 ^ 32
    → h' < 256 ^ 32
    → tx_id_of p h ≡ tx_id_of p' h'
    → (p ≡ p') × (h ≡ h')
tx_id_of-injective p p' h h' hh hh' e = (omega (arith, hh, hh', e), omega (arith, hh, hh', e))

module _ (keccak256 : List ℕ → ℕ) (laws : HashLaws keccak256) where
  id_bytes : L2Tx → ℕ → List ℕ
  id_bytes tx word =
      drop 2 (be 8 tx.from_idx)
      ++ (be 4 tx.token_id ++ (drop 3 (be 8 word) ++ (drop 3 (be 8 tx.nonce) ++ (tx.fee ∷ []))))

  id_bytes-Hashed :
      (tx : L2Tx) (x : ℕ)
      → tx.fee < 256
      → (length (id_bytes tx x) ≡ 21) × All (λ b. b < 256) (id_bytes tx x)
  unfolding id_bytes be
  id_bytes-Hashed tx x small = (refl, omega (arith, small))

  calculate_tx_id-shape :
      (tx : L2Tx) {i : ℕ}
      → calculate_tx_id keccak256 tx ≡ ok i
      → (x : ℕ) × (i ≡ tx_id_of 2 (keccak256 (id_bytes tx x)))
        × (amount_from_bytes (drop 3 (be 8 x)) ≡ ok tx.amount)
        × (of_be (drop 2 (be 8 tx.from_idx)) ≡ tx.from_idx)
        × (of_be (drop 3 (be 8 tx.nonce)) ≡ tx.nonce)
  unfolding calculate_tx_id id_bytes token_id_bytes
  calculate_tx_id-shape tx e =
      let put : List ℕ → List ℕ → List ℕ → ℕ =
        λ f a n. tx_id_of 2 (keccak256 (f ++ (be 4 tx.token_id ++ (a ++ (n ++ (tx.fee ∷ [])))))) in
      let (f, hf, e1) = chain_value (idx_bytes tx.from_idx) _ e in
      let (a, ha, e2) = chain_value (amount_bytes tx.amount) _ e1 in
      let (n, hn, e3) = chain_value (nonce_bytes tx.nonce) _ e2 in
      let (sf, rf) = idx_bytes-Fits tx.from_idx hf in
      let (x, sa, ra) = amount_bytes-Fits tx.amount ha in
      let (sn, rn) = nonce_bytes-Fits tx.nonce hn in
      (
        x,
        sym (ok-injective e3)
            ∙ ap (λ (q : List ℕ). put q a n) sf
            ∙ ap (λ (q : List ℕ). put (drop 2 (be 8 tx.from_idx)) q n) sa
            ∙ ap (put (drop 2 (be 8 tx.from_idx)) (drop 3 (be 8 x))) sn,
        ra,
        rf,
        rn,
      )

  id_bytes-parts :
      (tx tx' : L2Tx) (x x' : ℕ)
      → id_bytes tx x ≡ id_bytes tx' x'
      → (drop 2 (be 8 tx.from_idx) ≡ drop 2 (be 8 tx'.from_idx))
        × (be 4 tx.token_id ≡ be 4 tx'.token_id)
        × (drop 3 (be 8 x) ≡ drop 3 (be 8 x'))
        × (drop 3 (be 8 tx.nonce) ≡ drop 3 (be 8 tx'.nonce))
        × (tx.fee ≡ tx'.fee)
  unfolding id_bytes be
  id_bytes-parts tx tx' x x' e = (
    ap (λ (b : List ℕ). slice b 0 6) e,
    ap (λ (b : List ℕ). slice b 6 10) e,
    ap (λ (b : List ℕ). slice b 10 15) e,
    ap (λ (b : List ℕ). slice b 15 20) e,
    ap (λ (b : List ℕ). get_or b 20 0) e,
  )

  -- Given `HashLaws`: two L2 transactions with tokens of 32 bits, fees of a byte and the same
  -- identifier have the same sender, token, amount, nonce and fee. That is the identifier of 33 bytes
  -- that `CalculateTxID` computes; the comment at `PoolL2Tx` (common/pooll2tx.go) tells of another one,
  -- of 12 bytes, which has the type, the sender and the nonce only.
  pub calculate_tx_id-binds :
      (tx tx' : L2Tx) (i : ℕ)
      → tx.token_id < 2 ^ 32
      → tx'.token_id < 2 ^ 32
      → tx.fee < 256
      → tx'.fee < 256
      → calculate_tx_id keccak256 tx ≡ ok i
      → calculate_tx_id keccak256 tx' ≡ ok i
      → (tx.from_idx ≡ tx'.from_idx)
        × (tx.token_id ≡ tx'.token_id)
        × (tx.amount ≡ tx'.amount)
        × (tx.nonce ≡ tx'.nonce)
        × (tx.fee ≡ tx'.fee)
  calculate_tx_id-binds tx tx' i ht ht' hf hf' e e' =
      let (x, si, ra, rf, rn) = calculate_tx_id-shape tx e in
      let (x', si', ra', rf', rn') = calculate_tx_id-shape tx' e' in
      let (size, bytes) = id_bytes-Hashed tx x hf in
      let (size', bytes') = id_bytes-Hashed tx' x' hf' in
      let (_, hash) =
        tx_id_of-injective 2 2 (keccak256 (id_bytes tx x)) (keccak256 (id_bytes tx' x'))
          (laws.range (id_bytes tx x)) (laws.range (id_bytes tx' x')) (sym si ∙ si') in
      let (b0, b1, b2, b3, b4) = id_bytes-parts tx tx' x x' (
        laws.injective (id_bytes tx x) (id_bytes tx' x') (size ∙ sym size') (omega (arith, size))
          bytes bytes' hash) in
      (
        sym rf ∙ ap of_be b0 ∙ rf',
        be-injective 4 tx.token_id tx'.token_id (omega (arith, ht)) (omega (arith, ht')) b1,
        ok-injective (sym ra ∙ ap amount_from_bytes b2 ∙ ra'),
        sym rn ∙ ap of_be b3 ∙ rn',
        b4,
      )

  -- The number that places an L1 transaction: its queue, or its batch.
  abbrev pub place_of : L1Tx → Option ℕ
  place_of tx = if tx.user_origin then tx.to_forge_l1_txs_num else tx.batch_num

  place_bytes : ℕ → ℕ → List ℕ
  place_bytes n position = be 8 n ++ be 2 position

  place_bytes-Hashed :
      (n position : ℕ)
      → (length (place_bytes n position) ≡ 10) × All (λ b. b < 256) (place_bytes n position)
  unfolding place_bytes be
  place_bytes-Hashed n position = (refl, omega arith)

  place_bytes-parts :
      (n k n' k' : ℕ)
      → place_bytes n k ≡ place_bytes n' k'
      → (be 8 n ≡ be 8 n') × (be 2 k ≡ be 2 k')
  unfolding place_bytes be
  place_bytes-parts n k n' k' e =
      (ap (λ (b : List ℕ). slice b 0 8) e, ap (λ (b : List ℕ). slice b 8 10) e)

  l1_set_id-shape :
      (tx : L1Tx) {i : ℕ}
      → l1_set_id keccak256 tx ≡ ok i
      → (n : ℕ) × (place_of tx ≡ some n)
        × (i ≡ tx_id_of (l1_prefix tx.user_origin) (keccak256 (place_bytes n tx.position)))
  unfolding l1_set_id place_bytes
  l1_set_id-shape tx e =
      let (n, hn, e1) = chain_value (ok_or (place_of tx) Error.missing_num) _ e in
      (n, ok_or-eq-ok (place_of tx) Error.missing_num hn, sym (ok-injective e1))

  prefix-injective : (b b' : Bool) → l1_prefix b ≡ l1_prefix b' → b ≡ b'
  prefix-injective b b' e = ground (arith, e)

  -- Given `HashLaws`: two L1 transactions with positions of 16 bits, numbers of 64 bits and the same
  -- identifier are both of users or both of coordinators, with the same queue or batch and position.
  pub l1_set_id-binds :
      (tx tx' : L1Tx) (i : ℕ)
      → tx.position < 2 ^ 16
      → tx'.position < 2 ^ 16
      → ((n : ℕ) → place_of tx ≡ some n → n < 2 ^ 64)
      → ((n : ℕ) → place_of tx' ≡ some n → n < 2 ^ 64)
      → l1_set_id keccak256 tx ≡ ok i
      → l1_set_id keccak256 tx' ≡ ok i
      → (tx.user_origin ≡ tx'.user_origin)
        × (place_of tx ≡ place_of tx')
        × (tx.position ≡ tx'.position)
  l1_set_id-binds tx tx' i hp hp' hn hn' e e' =
      let (n, at, si) = l1_set_id-shape tx e in
      let (n', at', si') = l1_set_id-shape tx' e' in
      let b : List ℕ = place_bytes n tx.position in
      let b' : List ℕ = place_bytes n' tx'.position in
      let (size, bytes) = place_bytes-Hashed n tx.position in
      let (size', bytes') = place_bytes-Hashed n' tx'.position in
      let (prefix, hash) =
        tx_id_of-injective (l1_prefix tx.user_origin) (l1_prefix tx'.user_origin) (keccak256 b)
          (keccak256 b') (laws.range b) (laws.range b') (sym si ∙ si') in
      let (b0, b1) =
        place_bytes-parts n tx.position n' tx'.position
          (laws.injective b b' (size ∙ sym size') (omega (arith, size)) bytes bytes' hash) in
      (
        prefix-injective tx.user_origin tx'.user_origin prefix,
        at
            ∙ ap some (be-injective 8 n n' (omega (arith, hn n at)) (omega (arith, hn' n' at')) b0)
            ∙ sym at',
        be-injective 2 tx.position tx'.position (omega (arith, hp)) (omega (arith, hp')) b1,
      )
