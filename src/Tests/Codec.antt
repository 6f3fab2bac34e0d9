-- ===== src/Tests/Codec.antt =====
-- The encodings of transactions, their signatures and identifiers at concrete values.
use native.Mathlib.Decide.{dec_le}
use han_hermez_node.Prelude.Order.{lt_wf}
use han_hermez_node.Bytes.{be, of_be, of_be-lt}
use native.Mathlib.Nat.{mod-eq_of_lt, pow-le-pow_right}
use han_hermez_node.Common.Ids.{idx_bytes, nonce_bytes, token_id_bytes}
use han_hermez_node.Common.Account.{ff_addr}
use han_hermez_node.Common.Float40.{new_float40, shift_zeros, float40_bytes}
use han_hermez_node.Common.Tx.{L1Tx, L2Tx, PoolL2Tx}
use han_hermez_node.Common.Codec.{
  empty_l1_tx, empty_l2_tx, da_length, amount_bytes, l2_bytes_data_availability,
  l2_tx_from_bytes_data_availability, l1_bytes_user, l1_user_tx_from_bytes, EthSigner,
  l1_bytes_coordinator_tx, l1_coordinator_tx_from_bytes, verify_signature,
}
use han_hermez_node.Common.Codec.DataAvailability.{
  l2_tx_from_bytes_data_availability-l2_bytes_data_availability,
}
use han_hermez_node.Common.Codec.Generic.{l1_user_tx_from_bytes-l1_bytes_user}
use han_hermez_node.Common.Codec.CoordinatorTx.{
  l1_coordinator_tx_from_bytes-l1_bytes_coordinator_tx,
}
use han_hermez_node.Common.Signing.{
  hash_to_sign, tx_compressed_data, rq_tx_compressed_data_v2, compressed_data_v2, amount_element,
  calculate_tx_id, l1_set_id,
}
use han_hermez_node.Common.Signing.Fields.{of_be-injective}
use han_hermez_node.Common.Signing.Binding.{FitsPool, SameSigned, hash_to_sign-binds}
use han_hermez_node.Common.Signing.TxIds.{
  HashLaws, place_of, calculate_tx_id-binds, l1_set_id-binds,
}
use han_hermez_node.Tests.Instance.{toy_crypto, toy_laws, toy_poseidon}
use han_hermez_node.Prelude.{
  ℕ, ◌+◌, ◌-◌, ◌/◌, ◌%◌, ◌^◌, ◌≤◌, ◌<◌, ◌≡◌, refl, sym, ◌∙◌, Bool, true, none, some, List, [], ◌∷◌,
  ◌++◌, arith, ltb, if◌then◌else◌, length, replicate, get_or, All, ok, is_ok, is_ok_value,
}

abbrev some_l2_tx : L2Tx
some_l2_tx = record empty_l2_tx {
  from_idx = 300;
  to_idx = 2 ^ 33 + 7;
  amount = 50;
  fee = 126;
  token_id = 3;
  nonce = 9;
}

-- The receiver is cut to 32 bits.
l2_tx_from_bytes_data_availability-l2_bytes_data_availability_example :
    (b : List ℕ) × (l2_bytes_data_availability 32 some_l2_tx ≡ ok b)
    × (length b ≡ da_length 32)
    × (l2_tx_from_bytes_data_availability b 32
        ≡ ok (record empty_l2_tx {
          from_idx = 300 % 256 ^ (32 / 8);
          to_idx = (2 ^ 33 + 7) % 256 ^ (32 / 8);
          amount = 50;
          fee = 126;
        }))
l2_tx_from_bytes_data_availability-l2_bytes_data_availability_example =
    l2_tx_from_bytes_data_availability-l2_bytes_data_availability 32 some_l2_tx (omega arith)
      (omega arith) (omega arith) (5, 1, omega arith, omega arith, omega arith)

abbrev some_l1_tx : L1Tx
some_l1_tx = record empty_l1_tx {
  to_forge_l1_txs_num = some 4;
  user_origin = true;
  position = 2;
  from_idx = 300;
  to_idx = 400;
  from_eth_addr = 11;
  from_bjj = 12;
  token_id = 3;
  amount = 50;
  effective_amount = 70;
  deposit_amount = 1000;
}

abbrev left_pad : List ℕ → ℕ → List ℕ
left_pad b n = replicate (n - length b) 0 ++ b

l1_user_tx_from_bytes-l1_bytes_user_example :
    (b : List ℕ) × (l1_bytes_user some_l1_tx ≡ ok b)
    × (length b ≡ 78)
    × (l1_user_tx_from_bytes b
        ≡ ok (record empty_l1_tx {
          user_origin = true;
          from_eth_addr = 11;
          from_bjj = 12;
          from_idx = 300;
          deposit_amount = 1000;
          amount = 50;
          token_id = 3;
          to_idx = 400;
        }))
l1_user_tx_from_bytes-l1_bytes_user_example =
    l1_user_tx_from_bytes-l1_bytes_user some_l1_tx refl (record {
      from_idx = omega arith;
      to_idx = omega arith;
      token_id = omega arith;
      from_eth_addr = omega arith;
      from_bjj = omega arith;
      amount = (5, 1, omega arith, omega arith, omega arith);
      deposit_amount = (1, 3, omega arith, omega arith, omega arith);
    })

-- A signer that recovers the address that the key names.
abbrev some_signer : EthSigner
some_signer = record {
  hash_to_sign = λ bjj chain hermez. ok (bjj + chain + hermez);
  recover = λ h signature. ok h;
}

abbrev some_signature : List ℕ
some_signature = replicate 64 7 ++ (28 ∷ [])

abbrev some_coordinator_tx : L1Tx
some_coordinator_tx = record empty_l1_tx {
  from_bjj = 12;
  token_id = 3;
  from_eth_addr = 12 + 5 + 20;
}

some_signed :
    verify_signature some_signer (12 + 5 + 20) 12 some_signature (5 % 2 ^ 64 % 2 ^ 16) 20 ≡ ok true
unfolding verify_signature
some_signed = refl

l1_coordinator_tx_from_bytes-l1_bytes_coordinator_tx_example :
    (b : List ℕ) × (l1_bytes_coordinator_tx some_signature some_coordinator_tx ≡ ok b)
    × (length b ≡ 101)
    × (l1_coordinator_tx_from_bytes some_signer b 5 20
        ≡ ok (record empty_l1_tx {
          from_bjj = 12;
          token_id = 3;
          from_eth_addr = if ltb 0 (get_or some_signature 64 0) then 12 + 5 + 20 else ff_addr;
        }))
l1_coordinator_tx_from_bytes-l1_bytes_coordinator_tx_example =
    l1_coordinator_tx_from_bytes-l1_bytes_coordinator_tx some_signer some_signature refl
      some_coordinator_tx 5 20 refl (omega arith) (omega arith) (λ h. some_signed)

abbrev some_pool_tx : PoolL2Tx
some_pool_tx = record {
  tx_id = 0;
  from_idx = 300;
  to_idx = 400;
  aux_to_idx = 0;
  to_eth_addr = 11;
  to_bjj = 2 ^ 255 + 3;
  token_id = 3;
  amount = 50;
  fee = 126;
  nonce = 9;
  max_num_batch = 77;
  error_code = 0;
  rq_from_idx = 500;
  rq_to_idx = 600;
  rq_to_eth_addr = 12;
  rq_to_bjj = 5;
  rq_token_id = 3;
  rq_amount = none;
  rq_fee = 1;
  rq_nonce = 2;
  absolute_fee = 0;
  rq_offset = 1;
  atomic_group_id = 8;
  type = none;
}

-- No requested amount is signed like the amount 0.
abbrev same_pool_tx : PoolL2Tx
same_pool_tx = record some_pool_tx { rq_amount = some 0 }

some_hashed : is_ok (hash_to_sign toy_crypto 5 some_pool_tx) ≡ true
unfolding hash_to_sign tx_compressed_data rq_tx_compressed_data_v2 compressed_data_v2 amount_element
    amount_bytes new_float40 shift_zeros lt_wf dec_le float40_bytes idx_bytes nonce_bytes
    token_id_bytes be of_be toy_poseidon
some_hashed = refl

same_hashed : hash_to_sign toy_crypto 5 same_pool_tx ≡ hash_to_sign toy_crypto 5 some_pool_tx
unfolding hash_to_sign rq_tx_compressed_data_v2 tx_compressed_data amount_element
same_hashed = refl

some_fits : FitsPool some_pool_tx
some_fits = omega arith

same_fits : FitsPool same_pool_tx
same_fits = omega arith

hash_to_sign-binds_example : (◌≡◌ {A = ℕ} 5 5) × SameSigned some_pool_tx same_pool_tx
hash_to_sign-binds_example =
    hash_to_sign-binds toy_crypto toy_laws 5 5 some_pool_tx same_pool_tx
      (is_ok_value (hash_to_sign toy_crypto 5 some_pool_tx) some_hashed).0 refl (omega arith)
      (omega arith) some_fits same_fits
      (is_ok_value (hash_to_sign toy_crypto 5 some_pool_tx) some_hashed).1
      (same_hashed ∙ (is_ok_value (hash_to_sign toy_crypto 5 some_pool_tx) some_hashed).1)

-- A hash of up to 32 bytes that keeps them.
toy_keccak : List ℕ → ℕ
toy_keccak b = of_be b % 256 ^ 32

toy_keccak-short : (b : List ℕ) → length b ≤ 21 → All (λ x. x < 256) b → toy_keccak b ≡ of_be b
unfolding toy_keccak
toy_keccak-short b small hb = mod-eq_of_lt (
    omega (
      arith,
      of_be-lt b hb,
      pow-le-pow_right {n = 256} (omega arith) {i = length b} {j = 32} (omega (arith, small)),
    ))

toy_hash_laws : HashLaws toy_keccak
unfolding toy_keccak
toy_hash_laws = record {
  range = λ b. omega arith;
  injective = λ b b' same small hb hb' e. of_be-injective b b' (length b) refl (sym same) hb hb' (
      sym (toy_keccak-short b small hb) ∙ e ∙ toy_keccak-short b' (omega (arith, same, small)) hb');
}

-- The receiver and the type are no part of the identifier.
abbrev other_l2_tx : L2Tx
other_l2_tx = record some_l2_tx { to_idx = 1; position = 6 }

some_id : is_ok (calculate_tx_id toy_keccak some_l2_tx) ≡ true
unfolding calculate_tx_id amount_bytes new_float40 shift_zeros lt_wf dec_le float40_bytes idx_bytes
    nonce_bytes
some_id = refl

other_id : calculate_tx_id toy_keccak other_l2_tx ≡ calculate_tx_id toy_keccak some_l2_tx
unfolding calculate_tx_id
other_id = refl

calculate_tx_id-binds_example :
    (◌≡◌ {A = ℕ} 300 300)
    × (◌≡◌ {A = ℕ} 3 3)
    × (◌≡◌ {A = ℕ} 50 50)
    × (◌≡◌ {A = ℕ} 9 9)
    × (◌≡◌ {A = ℕ} 126 126)
calculate_tx_id-binds_example =
    calculate_tx_id-binds toy_keccak toy_hash_laws some_l2_tx other_l2_tx
      (is_ok_value (calculate_tx_id toy_keccak some_l2_tx) some_id).0 (omega arith) (omega arith)
      (omega arith) (omega arith) (is_ok_value (calculate_tx_id toy_keccak some_l2_tx) some_id).1
      (other_id ∙ (is_ok_value (calculate_tx_id toy_keccak some_l2_tx) some_id).1)

abbrev other_l1_tx : L1Tx
other_l1_tx = record some_l1_tx { amount = 60 }

some_l1_id : is_ok (l1_set_id toy_keccak some_l1_tx) ≡ true
unfolding l1_set_id
some_l1_id = refl

other_l1_id : l1_set_id toy_keccak other_l1_tx ≡ l1_set_id toy_keccak some_l1_tx
unfolding l1_set_id
other_l1_id = refl

l1_set_id-binds_example :
    (◌≡◌ {A = Bool} true true)
    × (place_of toy_keccak toy_hash_laws some_l1_tx ≡ place_of toy_keccak toy_hash_laws other_l1_tx)
    × (◌≡◌ {A = ℕ} 2 2)
l1_set_id-binds_example =
    l1_set_id-binds toy_keccak toy_hash_laws some_l1_tx other_l1_tx
      (is_ok_value (l1_set_id toy_keccak some_l1_tx) some_l1_id).0 (omega arith) (omega arith)
      (λ n e. ground (arith, e)) (λ n e. ground (arith, e))
      (is_ok_value (l1_set_id toy_keccak some_l1_tx) some_l1_id).1
      (other_l1_id ∙ (is_ok_value (l1_set_id toy_keccak some_l1_tx) some_l1_id).1)
