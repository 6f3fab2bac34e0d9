-- ===== src/Common/Codec/DataAvailability.antt =====
-- The data availability of a batch (common/l1tx.go, common/l2tx.go): what the coordinator writes for a
-- transaction and the synchronizer reads.
use mathlib.Core.List.{append_assoc}
use han_hermez_node.Bytes.{be, length-be}
use han_hermez_node.Common.Ids.{max_idx_value}
use han_hermez_node.Common.Tx.{L1Tx, L2Tx}
use han_hermez_node.Common.Codec.{
  empty_l1_tx, empty_l2_tx, amount_bytes, amount_from_bytes, da_length, da_head,
  l1_bytes_data_availability, l2_bytes_data_availability, l1_tx_from_data_availability,
  l2_tx_from_bytes_data_availability,
}
use han_hermez_node.Common.Codec.Parts.{
  Representable, amount_from_bytes-amount_bytes, amount_bytes-Representable, drop-idx, idx_bytes-ok,
  idx_from_bytes-low,
}
use han_hermez_node.Common.Codec.Slices.{slice-append, get_or-append}
use han_hermez_node.Prelude.{
  ℕ, ◌+◌, ◌-◌, ◌*◌, ◌/◌, ◌%◌, ◌^◌, ◌≤◌, ◌≡◌, refl, sym, ap, ◌∙◌, true, ◌&&◌, List, [], ◌∷◌, ◌++◌,
  arith, leb, length, replicate, get_or, slice, length-append, length-replicate, ok,
}

-- The bytes that `da_head` writes.
abbrev written : (k from to : ℕ) → List ℕ → List ℕ → List ℕ
written k from to a tail = be k from ++ (be k to ++ (a ++ tail))

-- What is read back from them.
record ReadBack (k from to amount : ℕ) (tail b : List ℕ) : Type 0 where
  pub from_part : slice b 0 k ≡ be k from
  pub to_part : slice b k (k * 2) ≡ be k to
  pub amount_part : amount_from_bytes (slice b (k * 2) (k * 2 + 5)) ≡ ok amount
  pub size : length b ≡ k * 2 + 5 + length tail
  pub next : (x : ℕ) (rest : List ℕ) → tail ≡ x ∷ rest → get_or b (k * 2 + 5) 0 ≡ x

module _ (k from to amount : ℕ) (tail a : List ℕ) (made : amount_bytes amount ≡ ok a) where
  written-ReadBack : ReadBack k from to amount tail (written k from to a tail)
  written-ReadBack =
      let (back, five) = amount_from_bytes-amount_bytes amount made in
      let lf : length (be k from) ≡ k = length-be k from in
      let lt : length (be k to) ≡ k = length-be k to in
      let front : List ℕ = be k from ++ be k to in
      let lfront : length front ≡ k * 2 =
        length-append (be k from) (be k to) ∙ omega (arith, lf, lt) in
      let regroup : written k from to a tail ≡ front ++ (a ++ tail) =
        sym (append_assoc (be k from) (be k to) (a ++ tail)) in
      let lall : length (front ++ a) ≡ k * 2 + 5 =
        length-append front a ∙ omega (arith, lfront, five) in
      let regroup2 : written k from to a tail ≡ (front ++ a) ++ tail =
        regroup ∙ sym (append_assoc front a tail) in
      record {
        from_part =
            slice-append [] (be k from) (be k to ++ (a ++ tail)) 0 k refl (omega (arith, lf));
        to_part =
            slice-append (be k from) (be k to) (a ++ tail) k (k * 2) (omega (arith, lf))
              (omega (arith, lt));
        amount_part =
            ap amount_from_bytes (
              ap (λ (b : List ℕ). slice b (k * 2) (k * 2 + 5)) regroup
              ∙ slice-append front a tail (k * 2) (k * 2 + 5) (omega (arith, lfront))
                  (omega (arith, five)))
            ∙ back;
        size = ap length regroup2 ∙ length-append (front ++ a) tail ∙ omega (arith, lall);
        next = λ x rest e.
            ap (λ (b : List ℕ). get_or b (k * 2 + 5) 0)
              (regroup2 ∙ ap (λ (t : List ℕ). (front ++ a) ++ t) e)
            ∙ get_or-append (front ++ a) rest x 0 (k * 2 + 5) (omega (arith, lall));
      }

  da_head-written :
      k ≤ 6
      → from ≤ max_idx_value
      → to ≤ max_idx_value
      → da_head k from to amount tail ≡ ok (written k from to a tail)
  unfolding da_head
  da_head-written within hf ht =
      let short : leb k 6 ≡ true = ground arith in
      rw (
        idx_bytes-ok from hf,
        short,
        idx_bytes-ok to ht,
        made,
        drop-idx k from within,
        drop-idx k to within,
      )

-- For indexes in range, at most 55 levels and an amount that a Float40 holds: the encoding of an L2
-- transaction succeeds with as many bytes as its array has, and decodes to a transaction with the same
-- amount and fee, with the low bits of the indexes that the levels have room for, and nothing else.
pub l2_tx_from_bytes_data_availability-l2_bytes_data_availability :
    (n_levels : ℕ) (tx : L2Tx)
    → n_levels ≤ 55
    → tx.from_idx ≤ max_idx_value
    → tx.to_idx ≤ max_idx_value
    → Representable tx.amount
    → (b : List ℕ) × (l2_bytes_data_availability n_levels tx ≡ ok b)
      × (length b ≡ da_length n_levels)
      × (l2_tx_from_bytes_data_availability b n_levels
          ≡ ok (record empty_l2_tx {
            from_idx = tx.from_idx % 256 ^ (n_levels / 8);
            to_idx = tx.to_idx % 256 ^ (n_levels / 8);
            amount = tx.amount;
            fee = tx.fee;
          }))
unfolding l2_bytes_data_availability l2_tx_from_bytes_data_availability
l2_tx_from_bytes_data_availability-l2_bytes_data_availability n tx levels hf ht fits =
    let k : ℕ = n / 8 in
    let within : k ≤ 6 = omega (arith, levels) in
    let rest : List ℕ = replicate (da_length n - (k * 2 + 6)) 0 in
    let (a, made) = amount_bytes-Representable tx.amount fits in
    let r = written-ReadBack k tx.from_idx tx.to_idx tx.amount (tx.fee ∷ rest) a made in
    let b : List ℕ = written k tx.from_idx tx.to_idx a (tx.fee ∷ rest) in
    let size : length b ≡ da_length n =
      r.size ∙ omega (arith, length-replicate {A = ℕ} (da_length n - (k * 2 + 6)) 0) in
    let long : (leb k 6 && leb (k * 2 + 6) (length b)) ≡ true = ground (arith, within, size) in
    (
      b,
      da_head-written k tx.from_idx tx.to_idx tx.amount (tx.fee ∷ rest) a made within hf ht,
      size,
      rw (
        long,
        r.from_part,
        r.to_part,
        idx_from_bytes-low k tx.from_idx within,
        idx_from_bytes-low k tx.to_idx within,
        r.amount_part,
        r.next tx.fee rest refl,
      ),
    )

-- `LeftPadBytes` puts zeros before a slice up to a length.
abbrev pub PadsLeft : (List ℕ → ℕ → List ℕ) → Type 0
PadsLeft pad = (b : List ℕ) (n : ℕ) → length b ≤ n → pad b n ≡ replicate (n - length b) 0 ++ b

-- For indexes in range, at most 55 levels, an effective amount that a Float40 holds and a
-- `LeftPadBytes` that puts zeros before: the encoding of an L1 transaction succeeds with as many bytes
-- as its array has, and decodes to a transaction with the same effective amount, with the low bits of
-- the indexes that the levels have room for, and nothing else.
l1_tx_from_data_availability-l1_bytes_data_availability :
    (pad : List ℕ → ℕ → List ℕ) (n_levels : ℕ) (tx : L1Tx)
    → PadsLeft pad
    → n_levels ≤ 55
    → tx.from_idx ≤ max_idx_value
    → tx.to_idx ≤ max_idx_value
    → Representable tx.effective_amount
    → (b : List ℕ) × (l1_bytes_data_availability n_levels tx ≡ ok b)
      × (length b ≡ da_length n_levels)
      × (l1_tx_from_data_availability pad b n_levels
          ≡ ok (record empty_l1_tx {
            from_idx = tx.from_idx % 256 ^ (n_levels / 8);
            to_idx = tx.to_idx % 256 ^ (n_levels / 8);
            effective_amount = tx.effective_amount;
          }))
unfolding l1_bytes_data_availability l1_tx_from_data_availability
l1_tx_from_data_availability-l1_bytes_data_availability pad n tx pads levels hf ht fits =
    let k : ℕ = n / 8 in
    let within : k ≤ 6 = omega (arith, levels) in
    let rest : List ℕ = replicate (da_length n - (k * 2 + 5)) 0 in
    let (a, made) = amount_bytes-Representable tx.effective_amount fits in
    let r = written-ReadBack k tx.from_idx tx.to_idx tx.effective_amount rest a made in
    let b : List ℕ = written k tx.from_idx tx.to_idx a rest in
    let size : length b ≡ da_length n =
      r.size ∙ omega (arith, length-replicate {A = ℕ} (da_length n - (k * 2 + 5)) 0) in
    let long : leb (k * 2 + 5) (length b) ≡ true = ground (arith, size) in
    let padded : (i : ℕ) → pad (be k i) 6 ≡ replicate (6 - k) 0 ++ be k i = λ i.
      pads (be k i) 6 (omega (arith, length-be k i))
      ∙ ap (λ (t : ℕ). replicate (6 - t) 0 ++ be k i) (length-be k i) in
    (
      b,
      da_head-written k tx.from_idx tx.to_idx tx.effective_amount rest a made within hf ht,
      size,
      rw (
        long,
        r.from_part,
        r.to_part,
        padded tx.from_idx,
        padded tx.to_idx,
        idx_from_bytes-low k tx.from_idx within,
        idx_from_bytes-low k tx.to_idx within,
        r.amount_part,
      ),
    )
