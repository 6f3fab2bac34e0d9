-- ===== src/Common/Float40.antt =====
-- Float40 (common/float40.go): 5 bits of exponent and 35 bits of mantissa, in a uint64. A big.Int
-- is a number; the amounts that are encoded are never negative. A mask `& (2 ^ k - 1)` is `% 2 ^
-- k`.
pub mod Decode
pub mod Encode
use mathlib.Core.Logic.{dite}
use mathlib.Core.WellFounded.{Acc, WellFounded}
use native.Mathlib.Decide.{dec_le}
use han_hermez_node.Prelude.Order.{lt_wf}
use han_hermez_node.Bytes.{be, of_be}
use han_hermez_node.Prelude.{
  ℕ, ◌+◌, ◌-◌, ◌*◌, ◌/◌, ◌%◌, ◌^◌, ◌≤◌, ◌<◌, true, false, List, ◌++◌, arith, ltb, leb, ◌==◌,
  if◌then◌else◌, drop, replicate, get_or, Error, Result, ok, err, ◌>>=◌,
}

abbrev pub max_float40_value : ℕ
max_float40_value = 0xff_ffff_ffff

abbrev pub thres : ℕ
thres = 0x08_00_00_00_00

-- `Float40.Bytes`
unfoldable pub float40_bytes : ℕ → Result (List ℕ)
float40_bytes f40 =
    if ltb max_float40_value f40 then err Error.float40_overflow else ok (drop 3 (be 8 f40))

-- `Float40FromBytes`, on five bytes
unfoldable pub float40_from_bytes : List ℕ → ℕ
float40_from_bytes b = of_be (replicate 3 0 ++ b)

-- `Float40.BigInt`. In Go `&` and `>>` bind alike, so the exponent is `(b[0] & 0xF8) >> 3`.
unfoldable pub float40_big_int : ℕ → Result ℕ
unfolding float40_bytes
float40_big_int f40 = do
  bytes ← float40_bytes f40
  let e = get_or bytes 0 0 / 2 ^ 3 * 2 ^ 3 / 2 ^ 3
  let m = f40 % 2 ^ 40 % 2 ^ 35
  ok (m * 10 ^ e)

pub tenth-lt : (m : ℕ) → thres ≤ m → m / 10 < m
tenth-lt m h = omega arith

-- The loop of `NewFloat40`, on the mantissa and the exponent: while the last decimal digit is 0 and
-- the mantissa does not fit.
unfoldable pub shift_zeros : (m : ℕ) → ℕ → Acc ◌<◌ m → ℕ × ℕ
shift_zeros m e (Acc.intro _ smaller) =
    dite (dec_le thres m)
      (λ h. elim (m % 10 == 0) [
        | true ↦ shift_zeros (m / 10) (e + 1) (smaller (m / 10) (tenth-lt m h))
        | false ↦ (m, e)
      ])
      (λ _. (m, e))

-- The checks and the packing behind the loop. `r.Uint64()` is exact, since `r` fits in 40 bits.
unfoldable pub pack : ℕ × ℕ → Result ℕ
pack (m, e) =
    if ltb 31 e
    then err Error.float40_e31
    else if leb thres m
    then err Error.float40_not_enough_precission
    else ok ((m + e * thres) % 2 ^ 64)

-- `NewFloat40`
unfoldable pub new_float40 : ℕ → Result ℕ
unfolding pack
new_float40 f = pack (shift_zeros f 0 (lt_wf.apply f))

-- The loop of `NewFloat40Floor`: it drops decimal digits until the mantissa fits.
unfoldable pub drop_digits : (m : ℕ) → ℕ → Acc ◌<◌ m → ℕ × ℕ
drop_digits m e (Acc.intro _ smaller) =
    dite (dec_le thres m) (λ h. drop_digits (m / 10) (e + 1) (smaller (m / 10) (tenth-lt m h)))
      (λ _. (m, e))

unfoldable pub pack_floor : ℕ × ℕ → Result ℕ
pack_floor (m, e) = if ltb 31 e then err Error.float40_e31 else ok ((m + e * thres) % 2 ^ 64)

-- `NewFloat40Floor`
unfoldable pub new_float40_floor : ℕ → Result ℕ
unfolding pack_floor
new_float40_floor f = pack_floor (drop_digits f 0 (lt_wf.apply f))
