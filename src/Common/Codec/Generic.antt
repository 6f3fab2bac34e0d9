-- ===== src/Common/Codec/Generic.antt =====
-- The transactions of the contract (common/l1tx.go): user transactions in 78 bytes, and coordinator
-- transactions in 101 with the signature that authorizes the account.
use han_hermez_node.Bytes.{be, of_be-be_of_lt}
use han_hermez_node.Common.Ids.{max_idx_value, token_id_bytes}
use han_hermez_node.Common.Ids.RoundTrip.{token_id_from_bytes-token_id_bytes}
use han_hermez_node.Common.Account.{empty_bjj_comp}
use han_hermez_node.Common.Tx.{L1Tx}
use han_hermez_node.Common.Codec.{
  empty_l1_tx, amount_from_bytes, swap_endianness, l1_bytes_generic, l1_bytes_user,
  l1_user_tx_from_bytes,
}
use han_hermez_node.Common.Codec.Parts.{
  Representable, amount_from_bytes-amount_bytes, amount_bytes-Representable, amount_bytes-word,
  idx_bytes-ok, idx_from_bytes-six, swap_endianness-swap_endianness,
}
use han_hermez_node.Prelude.{
  ℕ, ◌^◌, ◌≤◌, ◌<◌, ◌≡◌, refl, sym, ap, ◌∙◌, inl, inr, true, List, ◌++◌, arith, ◌==◌, ==_iff,
  if◌then◌else◌, Bool-cases, length, drop, replicate, slice, ok,
}

-- The bytes of a key, in the order of the contract. The empty key is all zeros either way.
key_bytes :
    (bjj : ℕ)
    → (if bjj == empty_bjj_comp then replicate 32 0 else swap_endianness (be 32 bjj))
      ≡ swap_endianness (be 32 bjj)
unfolding be swap_endianness
key_bytes bjj = elim (Bool-cases (bjj == empty_bjj_comp)) [
  | inl empty ↦ rw ((==_iff bjj 0).0 empty) refl
  | inr other ↦ rw other refl
]

-- The 78 bytes, and their parts.
abbrev layout : L1Tx → List ℕ → List ℕ → List ℕ
layout tx d a =
    be 20 tx.from_eth_addr
    ++ (swap_endianness (be 32 tx.from_bjj)
        ++ (drop 2 (be 8 tx.from_idx)
            ++ (d ++ (a ++ (token_id_bytes tx.token_id ++ drop 2 (be 8 tx.to_idx))))))

abbrev five : ℕ → List ℕ
five n = drop 3 (be 8 n)

module _ (tx : L1Tx) (x y : ℕ) where
  layout-parts :
      (length (layout tx (five x) (five y)) ≡ 78)
      × (slice (layout tx (five x) (five y)) 0 20 ≡ be 20 tx.from_eth_addr)
      × (slice (layout tx (five x) (five y)) 20 52 ≡ swap_endianness (be 32 tx.from_bjj))
      × (slice (layout tx (five x) (five y)) 52 58 ≡ drop 2 (be 8 tx.from_idx))
      × (slice (layout tx (five x) (five y)) 58 63 ≡ five x)
      × (slice (layout tx (five x) (five y)) 63 68 ≡ five y)
      × (slice (layout tx (five x) (five y)) 68 72 ≡ token_id_bytes tx.token_id)
      × (slice (layout tx (five x) (five y)) 72 78 ≡ drop 2 (be 8 tx.to_idx))
  unfolding be token_id_bytes swap_endianness
  layout-parts = (refl, refl, refl, refl, refl, refl, refl, refl)

-- The fields of a user transaction that fit their words.
pub record FitsL1 (tx : L1Tx) : Type 0 where
  pub from_idx : tx.from_idx ≤ max_idx_value
  pub to_idx : tx.to_idx ≤ max_idx_value
  pub token_id : tx.token_id < 2 ^ 32
  pub from_eth_addr : tx.from_eth_addr < 2 ^ 160
  pub from_bjj : tx.from_bjj < 2 ^ 256
  pub amount : Representable tx.amount
  pub deposit_amount : Representable tx.deposit_amount

-- For a user transaction whose fields fit their words and whose amounts a Float40 holds: the encoding
-- succeeds with 78 bytes, and decodes to a user transaction with the same sender, key, indexes, token
-- and amounts, and nothing else.
pub l1_user_tx_from_bytes-l1_bytes_user :
    (tx : L1Tx)
    → tx.user_origin ≡ true
    → FitsL1 tx
    → (b : List ℕ) × (l1_bytes_user tx ≡ ok b)
      × (length b ≡ 78)
      × (l1_user_tx_from_bytes b
          ≡ ok (record empty_l1_tx {
            user_origin = true;
            from_eth_addr = tx.from_eth_addr;
            from_bjj = tx.from_bjj;
            from_idx = tx.from_idx;
            deposit_amount = tx.deposit_amount;
            amount = tx.amount;
            token_id = tx.token_id;
            to_idx = tx.to_idx;
          }))
unfolding l1_bytes_user l1_bytes_generic l1_user_tx_from_bytes
l1_user_tx_from_bytes-l1_bytes_user tx user fits =
    let (d, md) = amount_bytes-Representable tx.deposit_amount fits.deposit_amount in
    let (a, ma) = amount_bytes-Representable tx.amount fits.amount in
    let (x, ed) = amount_bytes-word tx.deposit_amount md in
    let (y, ea) = amount_bytes-word tx.amount ma in
    let (back_d, _) = amount_from_bytes-amount_bytes tx.deposit_amount md in
    let (back_a, _) = amount_from_bytes-amount_bytes tx.amount ma in
    let (size, addr, key, from, dep, am, token, to) = layout-parts tx x y in
    (
      layout tx (five x) (five y),
      rw (
        user,
        idx_bytes-ok tx.from_idx fits.from_idx,
        md,
        ma,
        idx_bytes-ok tx.to_idx fits.to_idx,
        key_bytes tx.from_bjj,
        ed,
        ea,
      ),
      size,
      rw (
        size,
        from,
        idx_from_bytes-six tx.from_idx fits.from_idx,
        dep,
        ap amount_from_bytes (sym ed) ∙ back_d,
        am,
        ap amount_from_bytes (sym ea) ∙ back_a,
        token,
        token_id_from_bytes-token_id_bytes tx.token_id fits.token_id,
        to,
        idx_from_bytes-six tx.to_idx fits.to_idx,
        addr,
        of_be-be_of_lt 20 tx.from_eth_addr (omega (arith, fits.from_eth_addr)),
        key,
        swap_endianness-swap_endianness,
        of_be-be_of_lt 32 tx.from_bjj (omega (arith, fits.from_bjj)),
      ),
    )
