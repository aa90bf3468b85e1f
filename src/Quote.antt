-- ===== src/Quote.antt =====
-- The constant-product quotes of contracts/shared/src/lib.rs, which the pair and the router share.
pub mod Output
pub mod Input
mod Tests
use coralswap_core.Prelude.{if◌then◌else◌, ltb, ℕ, ◌%◌, ◌+◌, ◌-◌, ◌/◌, ◌==◌, ◌^◌, ◌||◌}
use coralswap_core.Int.{abs, checked_add, checked_mul, checked_sub, leb_ℤ, pos, quot, ℤ}
use coralswap_core.Outcome.{Outcome, ok, ok_or, raise_if, unwrap, ◌>>=◌, ◌>>◌}
use coralswap_core.U256.{u256_mul}

pub data QuoteError : Type 0 where
  zero_amount insufficient_liquidity overflow dust invalid_fee : QuoteError

abbrev pub bps_denominator : ℤ
bps_denominator = pos 10_000

unfoldable pub fee_factor : ℕ → Outcome QuoteError ℤ
unfolding checked_sub
fee_factor fee_bps = do
  raise_if (leb_ℤ bps_denominator (pos fee_bps)) QuoteError.invalid_fee
  unwrap (checked_sub bps_denominator (pos fee_bps))

unfoldable pub quote_output_amount : ℤ → ℤ → ℤ → ℕ → Outcome QuoteError ℤ
unfolding fee_factor checked_mul checked_add quot
quote_output_amount amount_in reserve_in reserve_out fee_bps = do
  raise_if (leb_ℤ amount_in (pos 0)) QuoteError.zero_amount
  raise_if (leb_ℤ reserve_in (pos 0) || leb_ℤ reserve_out (pos 0)) QuoteError.insufficient_liquidity
  factor ← fee_factor fee_bps
  amount_in_with_fee ← ok_or (checked_mul amount_in factor) QuoteError.overflow
  numerator ← ok_or (checked_mul amount_in_with_fee reserve_out) QuoteError.overflow
  scaled ← ok_or (checked_mul reserve_in bps_denominator) QuoteError.overflow
  denominator ← ok_or (checked_add scaled amount_in_with_fee) QuoteError.overflow
  let out = quot numerator denominator
  raise_if (leb_ℤ out (pos 0)) QuoteError.dust
  ok out

-- The products are 256 bits wide; the last sum cannot pass that width, since a remainder leaves the
-- quotient below its numerator.
unfoldable pub quote_input_amount : ℤ → ℤ → ℤ → ℕ → Outcome QuoteError ℤ
unfolding fee_factor checked_sub u256_mul
quote_input_amount amount_out reserve_in reserve_out fee_bps = do
  raise_if (leb_ℤ amount_out (pos 0)) QuoteError.zero_amount
  raise_if (leb_ℤ reserve_in (pos 0) || leb_ℤ reserve_out (pos 0) || leb_ℤ reserve_out amount_out)
      QuoteError.insufficient_liquidity
  factor ← fee_factor fee_bps
  product ← ok_or (u256_mul (abs reserve_in) (abs amount_out)) QuoteError.overflow
  numerator ← ok_or (u256_mul product (abs bps_denominator)) QuoteError.overflow
  left ← unwrap (checked_sub reserve_out amount_out)
  denominator ← ok_or (u256_mul (abs left) (abs factor)) QuoteError.overflow
  let quotient = numerator / denominator
  let rounded = quotient + (if numerator % denominator == 0 then 0 else 1)
  raise_if (ltb (2 ^ 127 - 1) rounded) QuoteError.overflow
  ok (pos rounded)
