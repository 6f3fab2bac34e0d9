-- ===== src/Common/Fee.antt =====
-- The fee of a transaction (common/fee.go). `Rsh(60)` is `/ 2 ^ 60`, and `BitLen() > 128` says that
-- the number is at least 2 ^ 128. The percentages as floats are not modelled.
pub mod Table
use Table.{fee_factor_lsh60}
use han_hermez_node.Prelude.{ℕ, ◌*◌, ◌/◌, ◌^◌, ltb, leb, if◌then◌else◌, Error, Result, ok, err}

-- `CalcFeeAmount`
unfoldable pub calc_fee_amount : ℕ → ℕ → Result ℕ
calc_fee_amount amount fee_sel =
    let product = amount * fee_factor_lsh60 fee_sel in
    let fee_amount = if ltb fee_sel 192 then product / 2 ^ 60 else product in
    if leb (2 ^ 128) fee_amount then err Error.fee_overflow else ok fee_amount
