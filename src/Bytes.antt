-- ===== src/Bytes.antt =====
-- Big-endian bytes: `encoding/binary`'s PutUint16, PutUint32, PutUint64 and Uint64, and the
-- `SetBytes` and fixed-width `Bytes` of `math/big`. A byte slice is a list of numbers.
use native.Mathlib.Nat.{
  div-add-mod, mul-add-mod_self_left, mod-eq_of_lt, pow-suc, mod-lt, mul-add-div_right,
  div-eq_of_lt,
}
use han_hermez_node.Prelude.{
  ℕ, zero, suc, ◌+◌, ◌*◌, ◌/◌, ◌%◌, ◌^◌, ◌<◌, ◌≡◌, refl, ap, ◌∙◌, List, [], ◌∷◌, arith, length, All,
}

-- The `w` low bytes of `n`, the highest first.
unfoldable pub be : ℕ → ℕ → List ℕ
be zero n = []
be (suc w) n = (n / 256 ^ w % 256) ∷ be w n

unfoldable pub of_be : List ℕ → ℕ
of_be [] = 0
of_be (b ∷ bs) = b * 256 ^ length bs + of_be bs

pub length-be : (w n : ℕ) → length (be w n) ≡ w
unfolding be
length-be zero n = refl
length-be (suc w) n = ap suc (length-be w n)

be-IsByte : (w n : ℕ) → All (λ b. b < 256) (be w n)
unfolding be
be-IsByte zero n = tt
be-IsByte (suc w) n = (omega arith, be-IsByte w n)

pow256_pos : (w : ℕ) → 0 < 256 ^ w
pow256_pos zero = omega arith
pow256_pos (suc w) = let ih = pow256_pos w in rw pow-suc (omega arith)

-- One more digit: the remainder by `256 * m` is the next digit and the remainder by `m`.
mod_digit : (n m : ℕ) → 0 < m → n % (m * 256) ≡ n / m % 256 * m + n % m
mod_digit n m h =
    ap (λ (t : ℕ). t % (m * 256)) split
    ∙ mul-add-mod_self_left (m * 256) (n / m / 256) (n / m % 256 * m + n % m)
    ∙ mod-eq_of_lt small
  where
    split : n ≡ m * 256 * (n / m / 256) + (n / m % 256 * m + n % m)
    split = omega (arith, div-add-mod n m, ap (λ (t : ℕ). m * t) (div-add-mod (n / m) 256))

    small : n / m % 256 * m + n % m < m * 256
    small = grind (arith, mod-lt n h)

-- Reading the `w` bytes of a number gives it modulo 256 ^ w.
pub of_be-be : (w n : ℕ) → of_be (be w n) ≡ n % 256 ^ w
unfolding of_be be
of_be-be zero n = omega arith
of_be-be (suc w) n =
    rw (length-be, of_be-be w n, pow-suc) (omega (arith, mod_digit n (256 ^ w) (pow256_pos w)))

-- A number that fits is read back.
pub of_be-be_of_lt : (w n : ℕ) → n < 256 ^ w → of_be (be w n) ≡ n
of_be-be_of_lt w n h = of_be-be w n ∙ mod-eq_of_lt h

-- The first of `w + 1` digits, where `m` holds the low `w` of them.
digit : (w d m : ℕ) → m < 256 ^ w → (d * 256 ^ w + m) / 256 ^ w ≡ d
digit w d m h = mul-add-div_right (pow256_pos w) d m ∙ omega (arith, div-eq_of_lt h)

-- Leading digits do not change the low ones.
be_lead : (w a m : ℕ) → be w (a * 256 ^ w + m) ≡ be w m
unfolding be
be_lead zero a m = refl
be_lead (suc w) a m =
    rw (regroup, mul-add-div_right (pow256_pos w) (a * 256) m, be_lead w (a * 256) m)
      (ap (λ (t : ℕ). t ∷ be w m) (omega arith))
  where
    regroup : a * 256 ^ suc w + m ≡ a * 256 * 256 ^ w + m
    regroup = rw pow-suc (omega arith)

-- The number of bytes bounds the number that they stand for.
pub of_be-lt : (bs : List ℕ) → All (λ b. b < 256) bs → of_be bs < 256 ^ length bs
unfolding of_be
of_be-lt [] h = omega arith
of_be-lt (b ∷ bs) h = rw pow-suc (grind (arith, of_be-lt bs h.1, h.0))

-- Writing the number that some bytes stand for gives the bytes back.
pub be-of_be : (bs : List ℕ) → All (λ b. b < 256) bs → be (length bs) (of_be bs) ≡ bs
unfolding of_be be
be-of_be [] h = refl
be-of_be (b ∷ bs) h =
    rw (digit (length bs) b (of_be bs) (of_be-lt bs h.1), be_lead, be-of_be bs h.1)
      (rw (mod-eq_of_lt h.0))
