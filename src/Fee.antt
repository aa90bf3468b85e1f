-- ===== src/Fee.antt =====
-- The dynamic fee of a pair: contracts/pair/src/dynamic_fee.rs and contracts/pair/src/fee_decay.rs.
pub mod Bounds
pub mod Volatility
pub mod Decay
use coralswap_core.Prelude.{
  if◌then◌else◌, ltb, max, min, suc, zero, ℕ, ◌+◌, ◌-◌, ◌/◌, ◌==◌, ◌^◌, ◌||◌,
}
use coralswap_core.Env.{Env}
use coralswap_core.Errors.{PairError}
use coralswap_core.Int.{
  abs, checked_add, checked_div, checked_mul, checked_sub, eq_ℤ, leb_ℤ, ltb_ℤ, min_ℤ, pos, quot,
  saturating_add, saturating_mul, saturating_sub, ℤ,
}
use coralswap_core.Math.{mul_then_div}
use coralswap_core.Outcome.{Outcome, ok, ok_or, raise_if, trap, ◌>>=◌, ◌>>◌}

-- `SCALE`
abbrev pub scale : ℤ
scale = pos 100_000_000_000_000

abbrev pub default_stale_ledger_threshold : ℕ
default_stale_ledger_threshold = 100

abbrev pub max_decay_periods : ℕ
max_decay_periods = 64

-- The `u32` and `u64` fields are natural numbers.
pub record FeeState : Type 0 where
  pub vol_accumulator : ℤ
  pub ema_alpha : ℤ
  pub baseline_fee_bps : ℕ
  pub min_fee_bps : ℕ
  pub max_fee_bps : ℕ
  pub ramp_up_multiplier : ℕ
  pub cooldown_divisor : ℕ
  pub last_fee_update : ℕ
  pub decay_threshold_blocks : ℕ
  pub stale_threshold : ℕ

-- `Ord::clamp`, which panics where the bounds are crossed.
abbrev pub clamp : {E : Type 0} → ℤ → ℤ → ℤ → Outcome E ℤ
clamp x lo hi =
    if ltb_ℤ hi lo then trap else ok (if ltb_ℤ x lo then lo else if ltb_ℤ hi x then hi else x)

-- Baseline plus volatility; both branches are clamped alike. The clamped value lies between two
-- `u32` values, so `as u32` keeps it.
unfoldable pub raw_fee : FeeState → ℤ
unfolding saturating_mul saturating_add quot
raw_fee fs =
    if eq_ℤ fs.vol_accumulator (pos 0)
    then pos fs.baseline_fee_bps
    else let scale_to_bps = quot scale (pos 10_000) in
      let vol_bps =
        quot (saturating_mul fs.vol_accumulator (pos fs.ramp_up_multiplier)) scale_to_bps in
      saturating_add (pos fs.baseline_fee_bps) vol_bps

unfoldable pub compute_fee_bps : {E : Type 0} → FeeState → Outcome E ℕ
compute_fee_bps fs = do
  fee ← clamp (raw_fee fs) (pos fs.min_fee_bps) (pos fs.max_fee_bps)
  ok (abs fee)

-- The accumulator that gives the highest fee caps the new one.
unfoldable pub cap_volatility : FeeState → ℤ → ℤ
unfolding saturating_mul saturating_sub quot
cap_volatility fs vol =
    if fs.ramp_up_multiplier == 0
    then vol
    else let headroom = saturating_sub (pos fs.max_fee_bps) (pos fs.baseline_fee_bps) in
      let max_vol =
        quot (saturating_mul headroom (quot scale (pos 10_000))) (pos fs.ramp_up_multiplier) in
      min_ℤ vol max_vol

-- `(alpha * observation + (SCALE - alpha) * vol) / SCALE`
unfoldable pub ema : ℤ → ℤ → ℤ → Outcome PairError ℤ
unfolding checked_mul checked_sub checked_add checked_div
ema alpha observation vol = do
  alpha_term ← ok_or (checked_mul alpha observation) PairError.overflow
  complement ← ok_or (checked_sub scale alpha) PairError.overflow
  prev_term ← ok_or (checked_mul complement vol) PairError.overflow
  total ← ok_or (checked_add alpha_term prev_term) PairError.overflow
  ok_or (checked_div total scale) PairError.overflow

-- The fields are written only after the last step that
-- can fail, so an error leaves the state as it was.
unfoldable pub update_volatility : Env → FeeState → ℤ → ℤ → ℤ → Outcome PairError FeeState
update_volatility env fs price_delta_abs trade_size total_reserve = do
  raise_if
      (ltb_ℤ price_delta_abs (pos 0) || leb_ℤ trade_size (pos 0) || leb_ℤ total_reserve (pos 0))
      PairError.invalid_input
  raise_if (ltb_ℤ fs.ema_alpha (pos 0) || ltb_ℤ scale fs.ema_alpha) PairError.invalid_ema_alpha
  weight ← mul_then_div trade_size scale total_reserve
  observation ← mul_then_div price_delta_abs weight scale
  average ← ema fs.ema_alpha observation fs.vol_accumulator
  ok (record fs { vol_accumulator = cap_volatility fs average; last_fee_update = env.timestamp })

-- `for _ in 0..decay_periods { vol /= divisor; if vol <= 0 { vol = 0; break } }`
unfoldable pub decay_loop : ℕ → ℤ → ℤ → ℤ
unfolding quot
decay_loop zero divisor vol = vol
decay_loop (suc periods) divisor vol =
    let next = quot vol divisor in
    let rest = decay_loop periods divisor next in if leb_ℤ next (pos 0) then pos 0 else rest

unfoldable pub apply_time_decay : FeeState → ℕ → FeeState
apply_time_decay fs current_ledger =
    let elapsed = current_ledger - fs.last_fee_update in
    if elapsed == 0 || leb_ℤ fs.vol_accumulator (pos 0)
    then fs
    else let divisor = max fs.cooldown_divisor 2 in
      let threshold = max fs.decay_threshold_blocks 1 in
      let decay_periods = min (elapsed / threshold) max_decay_periods in
      if decay_periods == 0
      then fs
      else let vol = decay_loop decay_periods (pos divisor) fs.vol_accumulator in
        record fs {
          vol_accumulator = if ltb_ℤ vol (pos 0) then pos 0 else vol;
          last_fee_update = current_ledger;
        }

-- The sum is one of `u64`.
unfoldable pub decay_stale_ema : {E : Type 0} → Env → FeeState → Outcome E FeeState
decay_stale_ema env fs =
    let due = fs.last_fee_update + fs.stale_threshold in
    if ltb due (2 ^ 64)
    then ok (if ltb due env.sequence then apply_time_decay fs env.sequence else fs)
    else trap
