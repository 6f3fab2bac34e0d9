-- ===== src/Tests/Encoding.antt =====
-- The encodings at concrete values.
use native.Mathlib.Decide.{dec_le}
use han_hermez_node.Prelude.Order.{lt_wf}
use han_hermez_node.Bytes.{be, of_be}
use han_hermez_node.Common.Ids.{nonce_bytes}
use han_hermez_node.Common.Float40.{
  float40_big_int, new_float40, shift_zeros, new_float40_floor, drop_digits, thres,
}
use han_hermez_node.Common.Float40.Encode.{new_float40_exact, new_float40_floor_bounds}
use han_hermez_node.Common.Account.{
  Account, hash_value, account_big_ints, account_bytes, account_layout, account_from_bytes,
}
use han_hermez_node.Common.Account.Hash.{account_from_bytes-account_bytes}
use han_hermez_node.Common.Ids.{token_id_bytes}
use han_hermez_node.Tests.Instance.{toy_crypto, toy_laws, toy_poseidon}
use han_hermez_node.Prelude.{
  ◌>>=◌, ℕ, ◌+◌, ◌*◌, ◌/◌, ◌^◌, ◌≤◌, ◌<◌, ◌≡◌, refl, true, arith, ok, is_ok, is_ok_value,
}

-- 12 with seven zeros behind it.
new_float40_exact_example :
    (x : ℕ) × (new_float40 (12 * 10 ^ 7) ≡ ok x) × (float40_big_int x ≡ ok (12 * 10 ^ 7))
new_float40_exact_example = new_float40_exact 12 7 (omega arith) (omega arith)

big_float : is_ok (new_float40 (10 ^ 20)) ≡ true
unfolding new_float40 shift_zeros lt_wf dec_le
big_float = refl

odd_float : is_ok (new_float40_floor 123456789012345) ≡ true
unfolding new_float40_floor drop_digits lt_wf dec_le
odd_float = refl

new_float40_floor_bounds_example :
    (v : ℕ) × (float40_big_int (is_ok_value (new_float40_floor 123456789012345) odd_float).0 ≡ ok v)
    × (v ≤ 123456789012345)
    × (123456789012345
        < v + 10 ^ ((is_ok_value (new_float40_floor 123456789012345) odd_float).0 / thres))
new_float40_floor_bounds_example =
    new_float40_floor_bounds 123456789012345
      (is_ok_value (new_float40_floor 123456789012345) odd_float).1

abbrev pub some_account : Account
some_account = record {
  idx = 256;
  token_id = 3;
  batch_num = 2;
  bjj = 2 ^ 255 + 9;
  eth_addr = 11;
  nonce = 4;
  balance = 1000;
}

some_hash : is_ok (hash_value toy_crypto some_account) ≡ true
unfolding hash_value account_big_ints account_bytes account_layout nonce_bytes token_id_bytes be
    of_be toy_poseidon
some_hash = refl

account_from_bytes-account_bytes_example :
    (account_bytes toy_crypto some_account >>= account_from_bytes toy_crypto)
    ≡ ok (record some_account { idx = 0; batch_num = 0 })
account_from_bytes-account_bytes_example =
    account_from_bytes-account_bytes toy_crypto toy_laws some_account
      (is_ok_value (hash_value toy_crypto some_account) some_hash).1 (omega arith) (omega arith)
      (omega arith)

-- The index is no part of the leaf.
abbrev same_leaf : Account
same_leaf = record some_account { idx = 300 }

same_hash : hash_value toy_crypto same_leaf ≡ hash_value toy_crypto some_account
unfolding hash_value account_big_ints account_bytes account_layout
same_hash = refl
