-- ===== src/Common/Account/RoundTrip.antt =====
-- Reading back the bytes of an account (common/account.go).
use han_hermez_node.Bytes.{be, of_be, of_be-be_of_lt, length-be, be-of_be}
use han_hermez_node.Crypto.{Crypto, CryptoLaws}
use han_hermez_node.Common.Ids.{
  max_nonce_value, nonce_bytes, nonce_from_bytes, token_id_bytes, token_id_from_bytes,
}
use han_hermez_node.Common.Account.{Account, account_layout, account_bytes, account_from_bytes}
use han_hermez_node.Prelude.{
  ℕ, ◌^◌, ◌≤◌, ◌<◌, ◌≡◌, refl, Bool, true, false, List, ◌∷◌, ◌++◌, arith, ◌==◌, if◌then◌else◌,
  length, drop, get_or, All, slice, All-slice, ok,
}

nonce_word : (n : ℕ) → n ≤ max_nonce_value → of_be (0 ∷ 0 ∷ 0 ∷ drop 3 (be 8 n)) ≡ n
unfolding be of_be
nonce_word n h = omega (arith, of_be-be_of_lt 5 n)

sign_byte : (s : Bool) → ((if s then 1 else 0) == 1) ≡ s
sign_byte true = refl
sign_byte false = refl

layout-IsByte :
    (a : Account) (s : Bool) (y : ℕ)
    → All (λ b. b < 256) (account_layout a (drop 3 (be 8 a.nonce)) s y)
unfolding account_layout be token_id_bytes
layout-IsByte a true y = omega arith
layout-IsByte a false y = omega arith

module _ (c : Crypto) where
  -- The bytes of an account whose nonce and balance fit.
  abbrev pub leaf : Account → List ℕ
  leaf a =
      account_layout a (drop 3 (be 8 a.nonce)) (c.unpack_sign_y a.bjj).0 (c.unpack_sign_y a.bjj).1

  pub account_bytes_fits :
      (a : Account) {b : List ℕ}
      → account_bytes c a ≡ ok b
      → (a.nonce ≤ max_nonce_value) × (a.balance < 2 ^ 192) × (b ≡ leaf a)
  unfolding account_bytes nonce_bytes
  account_bytes_fits a h = ground arith

  pub account_bytes-leaf :
      (a : Account)
      → a.nonce ≤ max_nonce_value
      → a.balance < 2 ^ 192
      → account_bytes c a ≡ ok (leaf a)
  unfolding account_bytes nonce_bytes
  account_bytes-leaf a hn hb = ground arith

  module _ (a : Account) where
    leaf_token : slice (leaf a) 28 32 ≡ be 4 a.token_id
    unfolding account_layout be token_id_bytes
    leaf_token = refl

    leaf_nonce : slice (leaf a) 23 28 ≡ drop 3 (be 8 a.nonce)
    unfolding account_layout be token_id_bytes
    leaf_nonce = refl

    leaf_sign : get_or (leaf a) 22 0 ≡ (if (c.unpack_sign_y a.bjj).0 then 1 else 0)
    unfolding account_layout be token_id_bytes
    leaf_sign = refl

    pub leaf_element : slice (leaf a) 32 64 ≡ be 32 a.balance
    unfolding account_layout be token_id_bytes
    leaf_element = refl

    pub leaf_balance : slice (leaf a) 40 64 ≡ be 24 a.balance
    unfolding account_layout be token_id_bytes
    leaf_balance = refl

    leaf_high : a.balance < 2 ^ 192 → of_be (slice (leaf a) 32 40) ≡ 0
    unfolding account_layout be of_be token_id_bytes
    leaf_high h = omega arith

    pub leaf_ay : slice (leaf a) 64 96 ≡ be 32 (c.unpack_sign_y a.bjj).1
    unfolding account_layout be token_id_bytes
    leaf_ay = refl

    leaf_addr : slice (leaf a) 108 128 ≡ be 20 a.eth_addr
    unfolding account_layout be token_id_bytes
    leaf_addr = refl

    -- Reading the leaf gives the account back, but for the index and batch number, which a leaf
    -- does not carry.
    pub account_from_bytes-leaf :
        CryptoLaws c
        → a.nonce ≤ max_nonce_value
        → a.balance < 2 ^ 192
        → a.token_id < 2 ^ 32
        → a.bjj < 2 ^ 256
        → a.eth_addr < 2 ^ 160
        → c.in_field a.balance ≡ true
        → c.in_field (c.unpack_sign_y a.bjj).1 ≡ true
        → account_from_bytes c (leaf a) ≡ ok (record a { idx = 0; batch_num = 0 })
    unfolding account_from_bytes token_id_from_bytes nonce_from_bytes
    account_from_bytes-leaf laws hn hb ht hj he fb fy =
        let token : of_be (be 4 a.token_id) ≡ a.token_id = of_be-be_of_lt 4 _ ht in
        let bal : of_be (be 24 a.balance) ≡ a.balance = of_be-be_of_lt 24 _ hb in
        let addr : of_be (be 20 a.eth_addr) ≡ a.eth_addr = of_be-be_of_lt 20 _ he in
        let y : of_be (be 32 (c.unpack_sign_y a.bjj).1) ≡ (c.unpack_sign_y a.bjj).1 =
          of_be-be_of_lt 32 _ (omega (arith, laws.unpack-lt a.bjj)) in
        rw (
          leaf_token,
          leaf_nonce,
          leaf_sign,
          leaf_balance,
          leaf_high hb,
          leaf_ay,
          leaf_addr,
          token,
          bal,
          addr,
          y,
          length-be,
          fb,
          fy,
          nonce_word a.nonce hn,
          sign_byte,
          laws.pack-unpack a.bjj hj,
        )

    -- The four field elements determine the bytes.
    element :
        (i j : ℕ)
        → length (slice (leaf a) i j) ≡ 32
        → be 32 (of_be (slice (leaf a) i j)) ≡ slice (leaf a) i j
    element i j n = rw n at (
        be-of_be (slice (leaf a) i j) (All-slice (λ b. b < 256) (leaf a) i j (layout-IsByte a _ _)))

    pub leaf_elements :
        leaf a
        ≡ be 32 (of_be (slice (leaf a) 0 32))
          ++ (be 32 (of_be (slice (leaf a) 32 64))
              ++ (be 32 (of_be (slice (leaf a) 64 96)) ++ be 32 (of_be (slice (leaf a) 96 128))))
    leaf_elements =
        rw
          (
            element 0 32 (unfold account_layout be token_id_bytes in refl),
            element 32 64 (unfold account_layout be token_id_bytes in refl),
            element 64 96 (unfold account_layout be token_id_bytes in refl),
            element 96 128 (unfold account_layout be token_id_bytes in refl),
          )
          (unfold account_layout be token_id_bytes in refl)
