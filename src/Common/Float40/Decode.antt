-- ===== src/Common/Float40/Decode.antt =====
-- What a Float40 stands for (`Float40.BigInt`, common/float40.go).
use han_hermez_node.Bytes.{be, of_be, of_be-be_of_lt}
use han_hermez_node.Common.Float40.{
  float40_bytes, float40_from_bytes, float40_big_int, max_float40_value, thres,
}
use han_hermez_node.Prelude.{
  ℕ, ◌+◌, ◌*◌, ◌/◌, ◌%◌, ◌^◌, ◌≤◌, ◌<◌, ◌≡◌, arith, leb, if◌then◌else◌, Error, ok, err, ◌>>=◌,
}

-- Five bytes carry the 40 bits of a Float40 over unchanged, and a larger word is refused.
float40_from_bytes-float40_bytes :
    (f : ℕ)
    → (float40_bytes f >>= λ b. ok (float40_from_bytes b))
      ≡ (if leb f max_float40_value then ok f else err Error.float40_overflow)
unfolding float40_bytes float40_from_bytes be of_be
float40_from_bytes-float40_bytes f = ground (arith, of_be-be_of_lt 5 f)

-- A packed mantissa and exponent stand for `m * 10 ^ e`.
pub float40_big_int-pack :
    (m e : ℕ) → m < thres → e ≤ 31 → float40_big_int (m + e * thres) ≡ ok (m * 10 ^ e)
unfolding float40_big_int be
float40_big_int-pack m e hm he =
    let exponent : (m + e * thres) / 4294967296 % 256 / 8 * 8 / 8 ≡ e = omega arith in
    let mantissa : (m + e * thres) % 2 ^ 40 % 2 ^ 35 ≡ m = omega arith in ground arith
