-- ===== src/TxProcessor/Apply/Debit.antt =====
-- What a transaction takes from its sender (the first half of `applyTransfer` and `applyExit`,
-- txprocessor/txprocessor.go).
use han_hermez_node.Crypto.{Crypto}
use han_hermez_node.Common.Account.{Account}
use han_hermez_node.Common.Fee.{calc_fee_amount}
use han_hermez_node.Common.Tx.{Tx}
use han_hermez_node.StateDb.{get_account}
use han_hermez_node.TxProcessor.State.{TxProcessor}
use han_hermez_node.TxProcessor.Apply.{
  add_accumulated, add_collected, collect_fee, debit_l1, debit_l2, debit,
}
use han_hermez_node.Prelude.{
  ℕ, ◌+◌, ◌≡◌, refl, sym, ap, ◌∙◌, subst, inl, inr, true, false, Option, none, some, List, [], ◌∷◌,
  arith, leb, if◌then◌else◌, Bool-cases, Option-cases, ok, Result-cases, lookup, insert, sum_values,
}

-- The fees that wait for the coordinator, and what a fee adds to them.
unfoldable pub total_fees : TxProcessor → ℕ
total_fees p = sum_values (λ f. f) p.accumulated_fees

abbrev pub collected_part : Option ℕ → ℕ → ℕ
collected_part none fee = 0
collected_part (some _) fee = fee

sum_values-insert_add :
    (k fee : ℕ) (m : List (ℕ × ℕ))
    → sum_values (λ f. f) (insert k ((elim (lookup k m) [ none ↦ 0 | some f ↦ f ]) + fee) m)
      ≡ sum_values (λ f. f) m + fee
unfolding sum_values insert lookup
sum_values-insert_add k fee [] = omega arith
sum_values-insert_add k fee ((j, f) ∷ m) = ground (arith, sum_values-insert_add k fee m)

add_accumulated-total_fees :
    (k fee : ℕ) (p : TxProcessor) → total_fees (add_accumulated k fee p) ≡ total_fees p + fee
unfolding add_accumulated total_fees
add_accumulated-total_fees k fee p = sum_values-insert_add k fee p.accumulated_fees

-- The fee maps apart, a processor as it was.
pub record SameBooks (p p' : TxProcessor) : Type 0 where
  pub state : p'.state ≡ p.state
  pub exit_tree : p'.exit_tree ≡ p.exit_tree

add_collected-same :
    (k fee : ℕ) (p : TxProcessor)
    → SameBooks p (add_collected k fee p).1
      × ((add_collected k fee p).1.accumulated_fees ≡ p.accumulated_fees)
unfolding add_collected
add_collected-same k fee p =
    (record { state = ground arith; exit_tree = ground arith }, ground arith)

module _ (c : Crypto) where
  -- The fee is accumulated where the token has a coordinator's account, and is lost otherwise.
  collect_fee-total :
      (m : List (ℕ × ℕ)) (token fee : ℕ) (p : TxProcessor)
      → (collect_fee c m token fee p).0 ≡ ok tt
      → SameBooks p (collect_fee c m token fee p).1
        × (total_fees (collect_fee c m token fee p).1
            ≡ total_fees p + collected_part (lookup token m) fee)
  unfolding add_accumulated collect_fee
  collect_fee-total m token fee p done = elim (Option-cases (lookup token m)) [
    | inl missing ↦
        let is : collect_fee c m token fee p ≡ (ok tt, p) = rw (missing, collect_fee) refl in
        let none_part : collected_part (lookup token m) fee ≡ 0 = rw missing refl in
        subst
          (λ r.
            SameBooks p r.1 × (total_fees r.1 ≡ total_fees p + collected_part (lookup token m) fee))
          (sym is) (record { state = refl; exit_tree = refl }, omega arith)
    | inr (coord_idx, found) ↦ elim (Result-cases (get_account c coord_idx p.state)) [
      | inl (coord, e) ↦
          let q = add_accumulated coord.idx fee p in
          let (same, fees) = add_collected-same coord.token_id fee q in
          let sums : total_fees (add_collected coord.token_id fee q).1 ≡ total_fees q =
            unfold total_fees in rw fees refl in
          let more = add_accumulated-total_fees coord.idx fee p in
          let is : collect_fee c m token fee p ≡ add_collected coord.token_id fee q =
            rw (found, e, collect_fee) refl in
          let whole : collected_part (lookup token m) fee ≡ fee = rw found refl in
          subst
            (λ r.
              SameBooks p r.1
              × (total_fees r.1 ≡ total_fees p + collected_part (lookup token m) fee))
            (sym is) (record { state = same.state; exit_tree = same.exit_tree }, omega arith)
      | inr (x, e) ↦ ground (arith, found, e)
    ]
  ]

  -- What a debit that succeeds took: the amount and, for L2, the fee of its selector and a nonce.
  pub record Debited (m : List (ℕ × ℕ)) (tx : Tx) (sender sender' : Account) (p p' : TxProcessor)
      : Type 0 where
    pub fee : ℕ
    pub fee_l1 : tx.is_l1 ≡ true → fee ≡ 0
    pub fee_l2 : tx.is_l1 ≡ false → calc_fee_amount tx.amount tx.fee ≡ ok fee
    pub balance : sender'.balance + (tx.amount + fee) ≡ sender.balance
    pub nonce : sender'.nonce ≡ (if tx.is_l1 then sender.nonce else sender.nonce + 1)
    pub same : SameBooks p p'
    pub fees : total_fees p' ≡ total_fees p + collected_part (lookup sender.token_id m) fee

  collected_part-zero : (o : Option ℕ) → collected_part o 0 ≡ 0
  collected_part-zero none = refl
  collected_part-zero (some x) = refl

  debit_l1-Debited :
      (m : List (ℕ × ℕ)) (tx : Tx) (sender sender' : Account) (p : TxProcessor)
      → tx.is_l1 ≡ true
      → (debit_l1 c tx sender p).0 ≡ ok sender'
      → Debited m tx sender sender' p (debit_l1 c tx sender p).1
  unfolding debit_l1
  debit_l1-Debited m tx sender sender' p is_l1 done =
      elim (Bool-cases (leb tx.amount sender.balance)) [
        | inl enough ↦
            let is : (debit_l1 c tx sender p).1 ≡ p = rw enough refl in
            subst (λ q. Debited m tx sender sender' p q) (sym is)
              (record {
                fee = 0;
                fee_l1 = λ _. refl;
                fee_l2 = λ not_l1. ground arith;
                balance = ground (arith, done, enough);
                nonce = ground (arith, done, enough);
                same = record { state = refl; exit_tree = refl };
                fees = rw (collected_part-zero (lookup sender.token_id m)) (omega arith);
              })
        | inr short ↦ ground (arith, short)
      ]

  debit_l2-Debited :
      (m : List (ℕ × ℕ)) (tx : Tx) (sender sender' : Account) (p : TxProcessor)
      → tx.is_l1 ≡ false
      → (debit_l2 c m tx sender p).0 ≡ ok sender'
      → Debited m tx sender sender' p (debit_l2 c m tx sender p).1
  unfolding debit_l2
  debit_l2-Debited m tx sender sender' p is_l2 done =
      elim (Result-cases (calc_fee_amount tx.amount tx.fee)) [
        | inr (x, e) ↦ ground (arith, e)
        | inl (fee, e) ↦ elim (Bool-cases (leb (tx.amount + fee) sender.balance)) [
          | inr short ↦ ground (arith, e, short)
          | inl enough ↦ elim (Result-cases (collect_fee c m sender.token_id fee p).0) [
            | inr (x, e') ↦ ground (arith, e, enough, e')
            | inl (tt, e') ↦
                let (same, fees) = collect_fee-total m sender.token_id fee p e' in
                let is : (debit_l2 c m tx sender p).1 ≡ (collect_fee c m sender.token_id fee p).1 =
                  ground (arith, e, enough, e') in
                subst (λ q. Debited m tx sender sender' p q) (sym is)
                  (record {
                    fee = fee;
                    fee_l1 = λ not_l2. ground arith;
                    fee_l2 = λ _. e;
                    balance = ground (arith, done, e, enough, e');
                    nonce = ground (arith, done, e, enough, e');
                    same = same;
                    fees = fees;
                  })
          ]
        ]
      ]

  pub debit-Debited :
      (m : List (ℕ × ℕ)) (tx : Tx) (sender sender' : Account) (p : TxProcessor)
      → (debit c m tx sender p).0 ≡ ok sender'
      → Debited m tx sender sender' p (debit c m tx sender p).1
  unfolding debit
  debit-Debited m tx sender sender' p done = elim (Bool-cases tx.is_l1) [
    | inl is_l1 ↦
        let is : debit c m tx sender p ≡ debit_l1 c tx sender p = rw is_l1 refl in
        subst (λ q. Debited m tx sender sender' p q) (sym (ap (λ r. r.1) is))
          (debit_l1-Debited m tx sender sender' p is_l1 (sym (ap (λ r. r.0) is) ∙ done))
    | inr is_l2 ↦
        let is : debit c m tx sender p ≡ debit_l2 c m tx sender p = rw is_l2 refl in
        subst (λ q. Debited m tx sender sender' p q) (sym (ap (λ r. r.1) is))
          (debit_l2-Debited m tx sender sender' p is_l2 (sym (ap (λ r. r.0) is) ∙ done))
  ]
