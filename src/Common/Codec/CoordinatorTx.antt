-- ===== src/Common/Codec/CoordinatorTx.antt =====
-- Coordinator transactions (common/l1tx.go, common/accountcreationauths.go): the account that the
-- coordinator creates with a user's authorization is the one that the synchronizer decodes.
use mathlib.Core.List.{append_assoc, append-nil}
use han_hermez_node.Bytes.{be, of_be, of_be-be_of_lt, length-be}
use han_hermez_node.Common.Ids.{token_id_bytes, token_id_from_bytes}
use han_hermez_node.Common.Ids.RoundTrip.{token_id_from_bytes-token_id_bytes}
use han_hermez_node.Common.Account.{ff_addr}
use han_hermez_node.Common.Tx.{L1Tx}
use han_hermez_node.Common.Codec.{
  empty_l1_tx, swap_endianness, EthSigner, l1_bytes_coordinator_tx, l1_coordinator_tx_from_bytes,
  verify_signature,
}
use han_hermez_node.Common.Codec.Parts.{swap_endianness-swap_endianness}
use han_hermez_node.Common.Codec.Slices.{take-append, slice-append, length-slice, take-slice}
use han_hermez_node.Prelude.{
  chain_value, ℕ, ◌+◌, ◌-◌, ◌%◌, ◌^◌, ◌<◌, ◌≡◌, refl, sym, ap, ◌∙◌, inl, inr, Bool, true, false,
  List, [], ◌∷◌, ◌++◌, arith, ltb, leb, ◌==◌, ==_iff, if◌then◌else◌, Bool-cases, length, take,
  replicate, get_or, slice, length-append, Error, Result, ok, ◌>>=◌, ◌>>◌, check,
}

-- The 101 bytes for a signature `r ++ s ++ v`.
abbrev layout : ℕ → List ℕ → List ℕ → ℕ → ℕ → List ℕ
layout v s r bjj token = v ∷ (s ++ (r ++ (swap_endianness (be 32 bjj) ++ token_id_bytes token)))

abbrev v_of : List ℕ → ℕ
v_of sig = get_or sig 64 0

lt_of_ltb : (n : ℕ) → ltb 0 n ≡ true → 0 < n
lt_of_ltb n e = ground arith

length-key : (bjj : ℕ) → length (swap_endianness (be 32 bjj)) ≡ 32
unfolding be swap_endianness
length-key bjj = refl

module _ (v : ℕ) (s r : List ℕ) (bjj token : ℕ) (ls : length s ≡ 32) (lr : length r ≡ 32) where
  layout-parts :
      (length (layout v s r bjj token) ≡ 101)
      × (slice (layout v s r bjj token) 1 33 ≡ s)
      × (slice (layout v s r bjj token) 33 65 ≡ r)
      × (slice (layout v s r bjj token) 65 97 ≡ swap_endianness (be 32 bjj))
      × (slice (layout v s r bjj token) 97 101 ≡ token_id_bytes token)
  unfolding token_id_bytes
  layout-parts =
      let key : List ℕ = swap_endianness (be 32 bjj) in
      let tail : List ℕ = be 4 token in
      let l1 : length (v ∷ s) ≡ 33 = omega (arith, ls) in
      let l2 : length ((v ∷ s) ++ r) ≡ 65 = length-append (v ∷ s) r ∙ omega (arith, l1, lr) in
      let l3 : length (((v ∷ s) ++ r) ++ key) ≡ 97 =
        length-append ((v ∷ s) ++ r) key ∙ omega (arith, l2, length-key bjj) in
      let g1 : layout v s r bjj token ≡ ((v ∷ s) ++ r) ++ (key ++ tail) =
        sym (append_assoc (v ∷ s) r (key ++ tail)) in
      let g2 : layout v s r bjj token ≡ (((v ∷ s) ++ r) ++ key) ++ (tail ++ []) =
        g1
        ∙ sym (append_assoc ((v ∷ s) ++ r) key tail)
        ∙ ap (λ (t : List ℕ). (((v ∷ s) ++ r) ++ key) ++ t) (sym (append-nil tail)) in
      (
        ap length g2
            ∙ length-append (((v ∷ s) ++ r) ++ key) (tail ++ [])
            ∙ omega (arith, l3, ap length (append-nil tail), length-be 4 token),
        slice-append (v ∷ []) s (r ++ (key ++ tail)) 1 33 refl (omega (arith, ls)),
        slice-append (v ∷ s) r (key ++ tail) 33 65 (omega (arith, l1)) (omega (arith, lr)),
        ap (λ (t : List ℕ). slice t 65 97) g1
            ∙ slice-append ((v ∷ s) ++ r) key tail 65 97 (omega (arith, l2))
                (omega (arith, length-key bjj)),
        ap (λ (t : List ℕ). slice t 97 101) g2
            ∙ slice-append (((v ∷ s) ++ r) ++ key) tail [] 97 101 (omega (arith, l3))
                (omega (arith, length-be 4 token)),
      )

module _ (e : EthSigner) (sig : List ℕ) (full : length sig ≡ 65) where
  abbrev encoded : ℕ → ℕ → List ℕ
  encoded bjj token = layout (v_of sig) (slice sig 32 64) (slice sig 0 32) bjj token

  encoded-parts :
      (bjj token : ℕ)
      → (length (encoded bjj token) ≡ 101)
        × (slice (encoded bjj token) 1 33 ≡ slice sig 32 64)
        × (slice (encoded bjj token) 33 65 ≡ slice sig 0 32)
        × (slice (encoded bjj token) 65 97 ≡ swap_endianness (be 32 bjj))
        × (slice (encoded bjj token) 97 101 ≡ token_id_bytes token)
  encoded-parts bjj token =
      layout-parts (v_of sig) (slice sig 32 64) (slice sig 0 32) bjj token
        (length-slice sig 32 64 (omega (arith, full))) (length-slice sig 0 32 (omega (arith, full)))

  -- The signature as the decoder puts it together is the one that was verified.
  decoded_signature :
      (bjj token : ℕ) (w : List ℕ)
      → slice (encoded bjj token) 33 65 ++ (slice (encoded bjj token) 1 33 ++ w) ≡ take 64 sig ++ w
  decoded_signature bjj token w =
      let b : List ℕ = encoded bjj token in
      let r : List ℕ = slice sig 0 32 in
      let s : List ℕ = slice sig 32 64 in
      let (size, at_s, at_r, at_key, at_token) = encoded-parts bjj token in
      ap (λ (t : List ℕ). t ++ (slice b 1 33 ++ w)) at_r
      ∙ ap (λ (t : List ℕ). r ++ (t ++ w)) at_s
      ∙ sym (append_assoc r s w)
      ∙ ap (λ (t : List ℕ). t ++ w) (take-slice 32 32 64 sig refl)

  -- An authorization that verifies: the signer of the hash is the address.
  verified :
      (eth_addr bjj chain hermez : ℕ)
      → verify_signature e eth_addr bjj sig chain hermez ≡ ok true
      → (h : ℕ) × (e.hash_to_sign bjj chain hermez ≡ ok h)
        × (e.recover h (take 64 sig ++ (((v_of sig + 256 - 27) % 256) ∷ [])) ≡ ok eth_addr)
  unfolding verify_signature
  verified eth_addr bjj chain hermez good =
      let zeros : List ℕ = replicate 65 0 in
      let same : take 65 (sig ++ zeros) ≡ sig =
        ap (λ (t : ℕ). take t (sig ++ zeros)) (sym full) ∙ take-append sig zeros in
      let signed : ℕ → List ℕ → Result Bool = λ h t.
        e.recover h (take 64 t ++ (((v_of t + 256 - 27) % 256) ∷ [])) >>= λ address.
        check (address == eth_addr) Error.wrong_signer >> ok true in
      let good' : (e.hash_to_sign bjj chain hermez >>= λ h. signed h sig) ≡ ok true =
        ap (λ (t : List ℕ). e.hash_to_sign bjj chain hermez >>= λ h. signed h t) (sym same)
        ∙ good in
      let (h, hashed, next) =
        chain_value (e.hash_to_sign bjj chain hermez) (λ h. signed h sig) good' in
      let (address, found, last) =
        chain_value (e.recover h (take 64 sig ++ (((v_of sig + 256 - 27) % 256) ∷ [])))
          (λ address. check (address == eth_addr) Error.wrong_signer >> ok true) next in
      (
        h,
        hashed,
        found
            ∙ ap ok (elim (Bool-cases (address == eth_addr)) [
              | inl is ↦ (==_iff address eth_addr).0 is
              | inr other ↦ absurd (ground (arith, last, other))
            ]),
      )

  -- For a coordinator transaction of a key and a token in range, a signature of 65 bytes, and an
  -- authorization of the transaction's address and key that verifies with this signature unless the
  -- signature is empty (its last byte is 0): the encoding succeeds with 101 bytes and decodes to a
  -- coordinator transaction with the same key and token, without amounts, for the address that
  -- authorized it, or for the internal address where the signature is empty.
  pub l1_coordinator_tx_from_bytes-l1_bytes_coordinator_tx :
      (tx : L1Tx) (chain_id hermez_address : ℕ)
      → tx.user_origin ≡ false
      → tx.from_bjj < 2 ^ 256
      → tx.token_id < 2 ^ 32
      → (0 < v_of sig
          → verify_signature e tx.from_eth_addr tx.from_bjj sig
              (chain_id % 2 ^ 64 % 2 ^ 16)
              hermez_address
            ≡ ok true)
      → (b : List ℕ) × (l1_bytes_coordinator_tx sig tx ≡ ok b)
        × (length b ≡ 101)
        × (l1_coordinator_tx_from_bytes e b chain_id hermez_address
            ≡ ok (record empty_l1_tx {
              from_bjj = tx.from_bjj;
              token_id = tx.token_id;
              from_eth_addr = if ltb 0 (v_of sig) then tx.from_eth_addr else ff_addr;
            }))
  unfolding l1_bytes_coordinator_tx l1_coordinator_tx_from_bytes
  l1_coordinator_tx_from_bytes-l1_bytes_coordinator_tx tx chain hermez coord key small good =
      let v : ℕ = v_of sig in
      let b : List ℕ = encoded tx.from_bjj tx.token_id in
      let (size, at_s, at_r, at_key, at_token) = encoded-parts tx.from_bjj tx.token_id in
      let long : leb 65 (length sig) ≡ true = ground (arith, full) in
      let key_back : of_be (swap_endianness (slice b 65 97)) ≡ tx.from_bjj =
        ap (λ (t : List ℕ). of_be (swap_endianness t)) at_key
        ∙ ap of_be (swap_endianness-swap_endianness (be 32 tx.from_bjj))
        ∙ of_be-be_of_lt 32 tx.from_bjj (omega (arith, key)) in
      let token_back : token_id_from_bytes (slice b 97 101) ≡ ok tx.token_id =
        ap token_id_from_bytes at_token ∙ token_id_from_bytes-token_id_bytes tx.token_id small in
      (
        b,
        rw (coord, long),
        size,
        elim (Bool-cases (ltb 0 v)) [
          | inl some_v ↦
              let (h, hashed, found) =
                verified tx.from_eth_addr tx.from_bjj (chain % 2 ^ 64 % 2 ^ 16) hermez
                  (good (lt_of_ltb (v_of sig) some_v)) in
              rw (
                size,
                token_back,
                key_back,
                some_v,
                hashed,
                decoded_signature tx.from_bjj tx.token_id (((v + 256 - 27) % 256) ∷ []),
                found,
              )
          | inr no_v ↦ rw (size, token_back, key_back, no_v)
        ],
      )
