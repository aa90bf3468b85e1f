-- ===== src/Math.antt =====
-- contracts/pair/src/math/mod.rs: multiplication and division at full width, Newton's integer square
-- root, the liquidity formulas, and the split of a single-sided deposit.
pub mod MulDiv
pub mod Sqrt
pub mod Liquidity
pub mod Split
mod Tests
use mathlib.Core.Option
use coralswap_core.Prelude.{
  Bool, Option, false, if◌then◌else◌, ltb, none, not, some, suc, true, zero, ℕ, ◌%◌, ◌+◌, ◌-◌, ◌/◌,
  ◌==◌, ◌^◌, ◌||◌,
}
use coralswap_core.Errors.{PairError}
use coralswap_core.Int.{
  abs, checked_add, checked_div, checked_mul, checked_sub, eq_ℤ, i128_min, leb_ℤ, ltb_ℤ, min_ℤ, neg,
  pos, two_127, ℤ,
}
use coralswap_core.Outcome.{Outcome, map_err, ok, ok_or, raise_if, trap, unwrap, ◌>>=◌, ◌>>◌}
use coralswap_core.Quote.{QuoteError, quote_output_amount}
use coralswap_core.U256.{u256_add, u256_mul}

abbrev pub minimum_liquidity : ℤ
minimum_liquidity = pos 1_000

-- The signs and magnitudes of the source: `^` on two tests is `≢`.
abbrev pub is_negative : ℤ → Bool
is_negative a = ltb_ℤ a (pos 0)

abbrev pub xor_bool : Bool → Bool → Bool
xor_bool true b = not b
xor_bool false b = b

-- `quotient.as_u128()` keeps the low 128 bits, and `i128::try_from` refuses what passes 2^127 - 1.
abbrev pub to_i128 : ℕ → Option ℤ
to_i128 q = let low = q % 2 ^ 128 in if ltb low two_127 then some (pos low) else none

abbrev pub signed_quotient : Bool → ℕ → Option ℤ
signed_quotient false quotient = if ltb (2 ^ 127 - 1) quotient then none else to_i128 quotient
signed_quotient true quotient =
    if ltb (2 ^ 127) quotient
    then none
    else if quotient == 2 ^ 127
    then some i128_min
    else Option.map neg (to_i128 quotient)

unfoldable pub mul_div : ℤ → ℤ → ℤ → Option ℤ
unfolding u256_mul
mul_div a b denominator =
    if eq_ℤ denominator (pos 0) then none else elim (u256_mul (abs a) (abs b)) [
      | none ↦ none
      | some product ↦
          signed_quotient
            (xor_bool (xor_bool (is_negative a) (is_negative b)) (is_negative denominator))
            (product / abs denominator)
    ]

-- `while y < x { x = y; y = (x + value / x) / 2; }`, with fuel. The sum is at most `value + 1`.
pub newton : ℕ → ℕ → ℕ → ℕ → Option ℕ
newton zero value x y = none
newton (suc fuel) value x y =
    let rest = newton fuel value y ((y + value / y) / 2) in if ltb y x then rest else some x

-- `x` falls in every round, so `value` rounds are enough. `x + 1` panics at `i128::MAX`.
unfoldable pub sqrt : {E : Type 0} → ℤ → Outcome E ℤ
unfolding checked_add newton
sqrt value = if ltb_ℤ value (pos 0) then trap else if eq_ℤ value (pos 0) then ok (pos 0) else do
  next ← unwrap (checked_add value (pos 1))
  root ← unwrap (newton (abs value) (abs value) (abs value) (abs next / 2))
  ok (pos root)

unfoldable pub map_quote_error : QuoteError → PairError
map_quote_error QuoteError.zero_amount = PairError.dust_amount
map_quote_error QuoteError.dust = PairError.dust_amount
map_quote_error QuoteError.insufficient_liquidity = PairError.insufficient_liquidity
map_quote_error QuoteError.overflow = PairError.overflow
map_quote_error QuoteError.invalid_fee = PairError.overflow

unfoldable pub get_amount_out : ℤ → ℤ → ℤ → ℕ → Outcome PairError ℤ
unfolding map_quote_error
get_amount_out amount_in reserve_in reserve_out fee_bps =
    map_err map_quote_error (quote_output_amount amount_in reserve_in reserve_out fee_bps)

unfoldable pub initial_liquidity : ℤ → ℤ → Outcome PairError ℤ
unfolding checked_mul checked_sub
initial_liquidity amount_a amount_b = do
  product ← ok_or (checked_mul amount_a amount_b) PairError.overflow
  root ← sqrt product
  ok_or (checked_sub root minimum_liquidity) PairError.insufficient_liquidity_minted

-- `a * b / c`, as every proportional amount below is computed.
unfoldable pub mul_then_div : ℤ → ℤ → ℤ → Outcome PairError ℤ
unfolding checked_mul checked_div
mul_then_div a b c = do
  product ← ok_or (checked_mul a b) PairError.overflow
  ok_or (checked_div product c) PairError.overflow

unfoldable pub subsequent_liquidity : ℤ → ℤ → ℤ → ℤ → ℤ → Outcome PairError ℤ
unfolding mul_then_div
subsequent_liquidity amount_a amount_b reserve_a reserve_b total_supply = do
  liquidity_a ← mul_then_div amount_a total_supply reserve_a
  liquidity_b ← mul_then_div amount_b total_supply reserve_b
  ok (min_ℤ liquidity_a liquidity_b)

unfoldable pub burn_amounts : ℤ → ℤ → ℤ → ℤ → Outcome PairError (ℤ × ℤ)
unfolding mul_then_div
burn_amounts lp_amount reserve_a reserve_b total_supply = do
  amount_a ← mul_then_div lp_amount reserve_a total_supply
  amount_b ← mul_then_div lp_amount reserve_b total_supply
  ok (amount_a, amount_b)

-- The sum `x + 1` of a 256-bit number; where it does not fit, the call traps.
unfoldable pub sqrt_u256 : {E : Type 0} → ℕ → Outcome E ℕ
unfolding newton u256_add
sqrt_u256 value =
    if value == 0
    then ok 0
    else do next ← unwrap (u256_add value 1); unwrap (newton value value value (next / 2))

-- The discriminant and the subtrahend of the quadratic formula.
unfoldable pub discriminant : ℕ → ℕ → ℕ → Outcome PairError (ℕ × ℕ)
unfolding u256_mul u256_add
discriminant r s f = do
  b_plus_f ← ok_or (u256_add 10_000 f) PairError.overflow
  b_plus_f_sq ← ok_or (u256_mul b_plus_f b_plus_f) PairError.overflow
  r_b_plus_f_sq ← ok_or (u256_mul r b_plus_f_sq) PairError.overflow
  four_f ← ok_or (u256_mul 4 f) PairError.overflow
  four_f_s ← ok_or (u256_mul four_f s) PairError.overflow
  scaled ← ok_or (u256_mul four_f_s 10_000) PairError.overflow
  inner ← ok_or (u256_add r_b_plus_f_sq scaled) PairError.overflow
  disc ← ok_or (u256_mul r inner) PairError.overflow
  ok (disc, b_plus_f)

-- The root of the quadratic equation, once the arguments are checked.
unfoldable pub swap_in_amount : ℕ → ℕ → ℕ → Outcome PairError ℤ
unfolding u256_mul
swap_in_amount r s f = do
  (disc, b_plus_f) ← discriminant r s f
  sqrt_disc ← sqrt_u256 disc
  r_b_plus_f ← ok_or (u256_mul r b_plus_f) PairError.overflow
  raise_if (ltb sqrt_disc r_b_plus_f) PairError.invalid_input
  denominator ← ok_or (u256_mul 2 f) PairError.overflow
  raise_if (denominator == 0) PairError.invalid_input
  let swap_in = (sqrt_disc - r_b_plus_f) / denominator
  raise_if (ltb (2 ^ 127 - 1) swap_in) PairError.overflow
  ok (pos swap_in)

unfoldable pub compute_swap_in_for_single_side : ℤ → ℤ → ℕ → Outcome PairError ℤ
compute_swap_in_for_single_side reserve_in amount fee_bps = do
  raise_if (leb_ℤ reserve_in (pos 0) || leb_ℤ amount (pos 0)) PairError.invalid_input
  raise_if (ltb 10_000 fee_bps) PairError.invalid_input
  swap_in_amount (abs reserve_in) (abs amount) (10_000 - fee_bps)
