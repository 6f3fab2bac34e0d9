-- ===== src/Common/Codec/Parts.antt =====
-- Reading back the parts of an encoding (common/l1tx.go, common/l2tx.go): an amount, an index in its
-- low bytes, and the slices of an array that was filled by parts.
use han_hermez_node.Bytes.{be, of_be, of_be-be, of_be-be_of_lt, length-be}
use han_hermez_node.Common.Ids.{max_idx_value, idx_bytes, idx_from_bytes}
use han_hermez_node.Common.Float40.{
  new_float40, float40_bytes, float40_from_bytes, float40_big_int, thres,
}
use han_hermez_node.Common.Float40.Encode.{new_float40_exact, float40_big_int-new_float40}
use han_hermez_node.Common.Codec.{amount_bytes, amount_from_bytes, swap_endianness}
use han_hermez_node.Prelude.{
  ℕ, zero, suc, ◌+◌, ◌-◌, ◌*◌, ◌%◌, ◌^◌, ◌≤◌, ◌<◌, ◌≡◌, refl, ap, ◌∙◌, inl, inr, List, [], ◌∷◌,
  ◌++◌, arith, length, drop, replicate, length-append, length-replicate, ok, Result-cases,
}

-- A mantissa below 2 ^ 35 with at most 31 zeros behind it: what a Float40 can hold.
abbrev pub Representable : ℕ → Type 0
Representable f = (a : ℕ) × (j : ℕ) × (a < thres) × (j ≤ 31) × (f ≡ a * 10 ^ j)

float40_bytes-ok :
    (x : ℕ) {b : List ℕ}
    → float40_bytes x ≡ ok b
    → (float40_from_bytes b ≡ x) × (length b ≡ 5) × (b ≡ drop 3 (be 8 x))
unfolding float40_bytes be float40_from_bytes of_be
float40_bytes-ok x {b} e = ground (arith, of_be-be_of_lt 5 x)

pub amount_from_bytes-amount_bytes :
    (f : ℕ) {b : List ℕ} → amount_bytes f ≡ ok b → (amount_from_bytes b ≡ ok f) × (length b ≡ 5)
unfolding amount_bytes amount_from_bytes
amount_from_bytes-amount_bytes f {b} e = elim (Result-cases (new_float40 f)) [
  | inl (x, found) ↦
      let back : (float40_from_bytes b ≡ x) × (length b ≡ 5) × (b ≡ drop 3 (be 8 x)) =
        float40_bytes-ok x (rw found at e) in
      (ap float40_big_int back.0 ∙ float40_big_int-new_float40 f found, back.1)
  | inr (x, failed) ↦ ground (arith, e, failed)
]

float40_big_int-IsFloat40 :
    (x : ℕ) {v : ℕ} → float40_big_int x ≡ ok v → (b : List ℕ) × (float40_bytes x ≡ ok b)
unfolding float40_big_int
float40_big_int-IsFloat40 x e = elim (Result-cases (float40_bytes x)) [
  | inl (b, found) ↦ (b, found)
  | inr (er, failed) ↦ ground (arith, e, failed)
]

pub amount_bytes-Representable : (f : ℕ) → Representable f → (b : List ℕ) × (amount_bytes f ≡ ok b)
unfolding amount_bytes
amount_bytes-Representable f (a, j, small, few, same) =
    let (x, made, back) = new_float40_exact a j small few in
    let (b, written) = float40_big_int-IsFloat40 x back in (b, rw (same, made, written))

drop-be : (m w k n : ℕ) → w ≡ m + k → drop m (be w n) ≡ be k n
unfolding be
drop-be zero w k n e = ap (λ (t : ℕ). be t n) (omega (arith, e))
drop-be (suc m) zero k n e = absurd (omega (arith, e))
drop-be (suc m) (suc w) k n e = drop-be m w k n (omega (arith, e))

-- The low bytes of an index, as the encoders cut them.
pub drop-idx : (k n : ℕ) → k ≤ 6 → drop (6 - k) (drop 2 (be 8 n)) ≡ be k n
drop-idx k n within =
    ap (drop (6 - k)) (drop-be 2 8 6 n (omega arith))
    ∙ drop-be (6 - k) 6 k n (omega (arith, within))

pub idx_bytes-ok : (n : ℕ) → n ≤ max_idx_value → idx_bytes n ≡ ok (drop 2 (be 8 n))
unfolding idx_bytes
idx_bytes-ok n h = ground arith

of_be-zeros : (m : ℕ) (bs : List ℕ) → of_be (replicate m 0 ++ bs) ≡ of_be bs
unfolding of_be
of_be-zeros zero bs = refl
of_be-zeros (suc m) bs = omega (arith, of_be-zeros m bs)

-- The low bytes behind zeros are the index, but for what they leave out.
pub idx_from_bytes-low :
    (k n : ℕ) → k ≤ 6 → idx_from_bytes (replicate (6 - k) 0 ++ be k n) ≡ ok (n % 256 ^ k)
unfolding idx_from_bytes
idx_from_bytes-low k n within =
    let full : length (replicate (6 - k) 0 ++ be k n) ≡ 6 =
      length-append (replicate (6 - k) 0) (be k n)
      ∙ omega (arith, length-replicate {A = ℕ} (6 - k) 0, length-be k n) in
    rw (full, of_be-zeros 2 (replicate (6 - k) 0 ++ be k n), of_be-zeros (6 - k) (be k n), of_be-be)

swap_endianness-append :
    (xs : List ℕ) (b : ℕ) → swap_endianness (xs ++ (b ∷ [])) ≡ b ∷ swap_endianness xs
unfolding swap_endianness
swap_endianness-append [] b = refl
swap_endianness-append (x ∷ xs) b = rw (swap_endianness-append xs b)

pub swap_endianness-swap_endianness : (xs : List ℕ) → swap_endianness (swap_endianness xs) ≡ xs
unfolding swap_endianness
swap_endianness-swap_endianness [] = refl
swap_endianness-swap_endianness (x ∷ xs) =
    swap_endianness-append (swap_endianness xs) x
    ∙ ap (λ (t : List ℕ). x ∷ t) (swap_endianness-swap_endianness xs)

-- The five bytes of an amount, whichever they are.
pub amount_bytes-word :
    (f : ℕ) {b : List ℕ} → amount_bytes f ≡ ok b → (x : ℕ) × (b ≡ drop 3 (be 8 x))
unfolding amount_bytes
amount_bytes-word f {b} e = elim (Result-cases (new_float40 f)) [
  | inl (x, found) ↦
      let back : (float40_from_bytes b ≡ x) × (length b ≡ 5) × (b ≡ drop 3 (be 8 x)) =
        float40_bytes-ok x (rw found at e) in
      (x, back.2)
  | inr (x, failed) ↦ ground (arith, e, failed)
]

-- Six bytes of an index in range are read back.
pub idx_from_bytes-six : (n : ℕ) → n ≤ max_idx_value → idx_from_bytes (drop 2 (be 8 n)) ≡ ok n
unfolding idx_from_bytes be of_be
idx_from_bytes-six n h = ground (arith, of_be-be_of_lt 6 n)
