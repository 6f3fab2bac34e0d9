-- ===== src/Common/Account/Hash.antt =====
-- What a leaf's hash determines (`Account.HashValue`, common/account.go).
use han_hermez_node.Bytes.{of_be, of_be-be_of_lt}
use han_hermez_node.Crypto.{Crypto, CryptoLaws}
use han_hermez_node.Common.Ids.{max_nonce_value}
use han_hermez_node.Common.Account.{
  Account, account_bytes, account_big_ints, hash_value, account_from_bytes,
}
use han_hermez_node.Common.Account.RoundTrip.{
  leaf, account_bytes_fits, account_bytes-leaf, leaf_elements, leaf_element, leaf_ay,
  account_from_bytes-leaf,
}
use han_hermez_node.Prelude.{
  ◌>>=◌, ℕ, ◌^◌, ◌≤◌, ◌<◌, ◌≡◌, sym, ◌∙◌, inl, inr, true, some, List, [], ◌∷◌, arith, slice, ok,
  Result-cases,
}

module _ (c : Crypto) where
  abbrev elements : Account → List ℕ
  elements a =
      of_be (slice (leaf c a) 0 32)
      ∷ of_be (slice (leaf c a) 32 64)
      ∷ of_be (slice (leaf c a) 64 96)
      ∷ of_be (slice (leaf c a) 96 128)
      ∷ []

  -- An account that has a hash fits in its leaf, and the hash is that of the four elements.
  pub hash_value_fits :
      (a : Account) {h : ℕ}
      → hash_value c a ≡ ok h
      → (a.nonce ≤ max_nonce_value) × (a.balance < 2 ^ 192) × (c.poseidon (elements a) ≡ some h)
  unfolding hash_value account_big_ints
  hash_value_fits a e = elim (Result-cases (account_bytes c a)) [
    | inl (b, eb) ↦
        let (hn, hb, same) = account_bytes_fits c a eb in (hn, hb, rw (← same) (ground (arith, eb)))
    | inr (x, ex) ↦ ground (arith, ex)
  ]

  module _ (laws : CryptoLaws c) where
    -- Given `CryptoLaws`: two accounts with one hash are encoded by the same bytes.
    pub hash_value-injective :
        (a b : Account) {h : ℕ}
        → hash_value c a ≡ ok h
        → hash_value c b ≡ ok h
        → leaf c a ≡ leaf c b
    hash_value-injective a b {h} p q =
        let same =
          laws.poseidon-injective (elements a) (elements b) h (hash_value_fits a p).2
            (hash_value_fits b q).2 in
        leaf_elements c a ∙ cc same ∙ sym (leaf_elements c b)

    pub leaf_element-balance :
        (a : Account) → a.balance < 2 ^ 192 → of_be (slice (leaf c a) 32 64) ≡ a.balance
    leaf_element-balance a h = rw (leaf_element c a) (of_be-be_of_lt 32 a.balance (omega arith))

    -- The leaf of an account that has a hash is decoded.
    pub account_from_bytes-hash :
        (a : Account) {h : ℕ}
        → hash_value c a ≡ ok h
        → a.token_id < 2 ^ 32
        → a.bjj < 2 ^ 256
        → a.eth_addr < 2 ^ 160
        → account_from_bytes c (leaf c a) ≡ ok (record a { idx = 0; batch_num = 0 })
    account_from_bytes-hash a e ht hj he =
        let (hn, hb, hp) = hash_value_fits a e in
        let field = laws.poseidon-InField (elements a) _ hp in
        let money : c.in_field a.balance ≡ true = rw (leaf_element-balance a hb) at field.1.0 in
        let key : c.in_field (c.unpack_sign_y a.bjj).1 ≡ true =
          rw
            (
              leaf_ay c a,
              of_be-be_of_lt 32 (c.unpack_sign_y a.bjj).1 (omega (arith, laws.unpack-lt a.bjj)),
            )
            at field.1.1.0 in
        account_from_bytes-leaf c a laws hn hb ht hj he money key

    -- Given `CryptoLaws`: an account that has a hash, and whose token, key and address fit their words,
    -- has bytes, and `AccountFromBytes` gives it back from what `Bytes` returned, but for the index and
    -- the batch number, which the bytes do not hold.
    pub account_from_bytes-account_bytes :
        (a : Account) {h : ℕ}
        → hash_value c a ≡ ok h
        → a.token_id < 2 ^ 32
        → a.bjj < 2 ^ 256
        → a.eth_addr < 2 ^ 160
        → (account_bytes c a >>= account_from_bytes c) ≡ ok (record a { idx = 0; batch_num = 0 })
    account_from_bytes-account_bytes a e ht hj he =
        let (hn, hb, hp) = hash_value_fits a e in
        rw (account_bytes-leaf c a hn hb) (account_from_bytes-hash a e ht hj he)
