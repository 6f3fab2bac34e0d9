-- ===== src/Common/Float40/Encode.antt =====
-- `NewFloat40` and `NewFloat40Floor` (common/float40.go): which amounts they encode, and as what.
use mathlib.Core.WellFounded.{Acc}
use native.Mathlib.Numerals.{add-one}
use native.Mathlib.Nat.{pow-suc}
use han_hermez_node.Prelude.Order.{lt_wf}
use han_hermez_node.Common.Float40.{
  shift_zeros, new_float40, float40_big_int, thres, tenth-lt, drop_digits, new_float40_floor,
}
use han_hermez_node.Common.Float40.Decode.{float40_big_int-pack}
use han_hermez_node.Prelude.{
  ℕ, zero, suc, ◌+◌, ◌*◌, ◌/◌, ◌%◌, ◌^◌, ◌≤◌, ◌<◌, ◌≡◌, refl, ap, ◌∙◌, arith, ok,
}

abbrev value : ℕ × ℕ → ℕ
value (m, e) = m * 10 ^ e

-- The loop keeps the value.
tenth : (m e : ℕ) → m % 10 ≡ 0 → m / 10 * 10 ^ (e + 1) ≡ m * 10 ^ e
tenth m e h =
    rw (add-one, pow-suc)
      (let d : m / 10 * 10 ≡ m = omega arith in omega (arith, ap (λ (t : ℕ). t * 10 ^ e) d))

value-shift_zeros : (m e : ℕ) (w : Acc ◌<◌ m) → value (shift_zeros m e w) ≡ m * 10 ^ e
unfolding shift_zeros
value-shift_zeros m e (Acc.intro _ smaller) = grind (
  arith,
  tenth m e,
  λ (p : thres ≤ m). value-shift_zeros (m / 10) (e + 1) (smaller (m / 10) (tenth-lt m p)),
)

-- On a representable amount the loop ends with a mantissa that fits, within the exponent given.
shift_zeros_fits :
    (j a m e : ℕ) (w : Acc ◌<◌ m)
    → a < thres
    → m ≡ a * 10 ^ j
    → let (m', e') = shift_zeros m e w in (m' < thres) × (e' ≤ e + j)
unfolding shift_zeros
shift_zeros_fits zero a m e (Acc.intro _ smaller) h eq =
    let eq' : m ≡ a = omega (arith, eq) in grind arith
shift_zeros_fits (suc j) a m e (Acc.intro _ smaller) h eq =
    let eq' : m ≡ a * 10 ^ j * 10 = eq ∙ omega (arith, ap (λ (t : ℕ). a * t) (pow-suc 10 j)) in
    let eq'' : m / 10 ≡ a * 10 ^ j = omega (arith, eq') in
    grind (
      arith,
      λ (p : thres ≤ m).
          shift_zeros_fits j a (m / 10) (e + 1) (smaller (m / 10) (tenth-lt m p)) h eq'',
    )

-- `NewFloat40` succeeds on every amount `a * 10 ^ j` with `a` below 2 ^ 35 and `j` up to 31, and
-- the Float40 that it returns decodes to that amount.
pub new_float40_exact :
    (a j : ℕ)
    → a < thres
    → j ≤ 31
    → (x : ℕ) × (new_float40 (a * 10 ^ j) ≡ ok x) × (float40_big_int x ≡ ok (a * 10 ^ j))
unfolding new_float40
new_float40_exact a j ha hj =
    let f = a * 10 ^ j in
    let r = shift_zeros f 0 (lt_wf.apply f) in
    let (fits, within) = shift_zeros_fits j a f 0 (lt_wf.apply f) ha refl in
    let same : r.0 * 10 ^ r.1 ≡ f = value-shift_zeros f 0 (lt_wf.apply f) ∙ omega arith in
    (r.0 + r.1 * thres, ground arith, float40_big_int-pack r.0 r.1 fits (omega arith) ∙ ap ok same)

-- Whatever `NewFloat40` returns without an error decodes to the amount that it was given.
pub float40_big_int-new_float40 : (f : ℕ) {x : ℕ} → new_float40 f ≡ ok x → float40_big_int x ≡ ok f
unfolding new_float40
float40_big_int-new_float40 f {x} h =
    let r = shift_zeros f 0 (lt_wf.apply f) in
    let same : r.0 * 10 ^ r.1 ≡ f = value-shift_zeros f 0 (lt_wf.apply f) ∙ omega arith in
    ground (arith, float40_big_int-pack r.0 r.1)

mul_mono : (x y z : ℕ) → x ≤ y → x * z ≤ y * z
mul_mono x y z h = grind arith

floor_step :
    (f m e : ℕ)
    → m * 10 ^ e ≤ f
    → f < (m + 1) * 10 ^ e
    → (m / 10 * 10 ^ (e + 1) ≤ f) × (f < (m / 10 + 1) * 10 ^ (e + 1))
floor_step f m e lo hi =
    let below = mul_mono (m / 10 * 10) m (10 ^ e) (omega arith) in
    let above = mul_mono (m + 1) ((m / 10 + 1) * 10) (10 ^ e) (omega arith) in
    rw (add-one, pow-suc) (omega arith, omega arith)

-- The loop of `NewFloat40Floor` brackets the amount.
drop_digits_floor :
    (f m e : ℕ) (w : Acc ◌<◌ m)
    → m * 10 ^ e ≤ f
    → f < (m + 1) * 10 ^ e
    → let (m', e') = drop_digits m e w in
      (m' * 10 ^ e' ≤ f) × (f < (m' + 1) * 10 ^ e') × (m' < thres)
unfolding drop_digits
drop_digits_floor f m e (Acc.intro _ smaller) lo hi =
    let (lo', hi') = floor_step f m e lo hi in
    grind (
      arith,
      λ (p : thres ≤ m).
          drop_digits_floor f (m / 10) (e + 1) (smaller (m / 10) (tenth-lt m p)) lo' hi',
    )

-- Where `NewFloat40Floor` returns a Float40, it decodes to a value that is at most the amount, and
-- the amount is less than one unit of the chosen exponent above it.
pub new_float40_floor_bounds :
    (f : ℕ) {x : ℕ}
    → new_float40_floor f ≡ ok x
    → (v : ℕ) × (float40_big_int x ≡ ok v) × (v ≤ f) × (f < v + 10 ^ (x / thres))
unfolding new_float40_floor
new_float40_floor_bounds f {x} h =
    let r = drop_digits f 0 (lt_wf.apply f) in
    let (lo, hi, fits) = drop_digits_floor f f 0 (lt_wf.apply f) (omega arith) (omega arith) in
    let exponent : r.1 ≡ x / thres = ground arith in
    (
      r.0 * 10 ^ r.1,
      ground (arith, float40_big_int-pack r.0 r.1),
      lo,
      rw (← exponent) (omega arith),
    )
