-- ===== src/Fee/Volatility.antt =====
-- The moving average of the observed volatility.
use coralswap_core.Prelude.{
  arith, div-mul-le, if◌then◌else◌, le_refl, le_trans, ltb, max, min, mul-le_cancel, mul_mono,
  subst, ℕ, ◌*◌, ◌+◌, ◌-◌, ◌/◌, ◌<◌, ◌==◌, ◌^◌, ◌≡◌, ◌≤◌,
}
use coralswap_core.Env.{Env}
use coralswap_core.Errors.{PairError}
use coralswap_core.Fee.{FeeState, cap_volatility, ema, update_volatility}
use coralswap_core.Fee.Bounds.{IsFeeState}
use coralswap_core.Int.{pos, two_127}
use coralswap_core.Int.Laws.{pos_of_nonneg}
use coralswap_core.Math.Liquidity.{mul_then_div_lem}
use coralswap_core.Outcome.{err, ok}

abbrev pub scale_ℕ : ℕ
scale_ℕ = 100_000_000_000_000

ema_lem :
    (a o v : ℕ)
    → a ≤ scale_ℕ
    → ema (pos a) (pos o) (pos v) ≡ (
        if ltb (a * o + (scale_ℕ - a) * v) two_127
        then ok (pos ((a * o + (scale_ℕ - a) * v) / scale_ℕ))
        else err PairError.overflow)
unfolding ema
ema_lem a o v h = ground arith

mean_sum : (a b o v m : ℕ) → o ≤ m → v ≤ m → a * o + b * v ≤ m * (a + b)
mean_sum a b o v m h k =
    let left = mul_mono a a o m (le_refl a) h in
    let right = mul_mono b b v m (le_refl b) k in omega arith

-- A weighted mean is at most the larger of its two values.
mean_bound : (a o v : ℕ) → a ≤ scale_ℕ → (a * o + (scale_ℕ - a) * v) / scale_ℕ ≤ max o v
mean_bound a o v h =
    let m = max o v in
    let n = a * o + (scale_ℕ - a) * v in
    let whole : a + (scale_ℕ - a) ≡ scale_ℕ = omega arith in
    let bound = mean_sum a (scale_ℕ - a) o v m (omega arith) (omega arith) in
    mul-le_cancel (n / scale_ℕ) m scale_ℕ (omega arith)
      (le_trans (div-mul-le n scale_ℕ) (subst (λ k. n ≤ m * k) whole bound))

-- The cap over the naturals.
abbrev pub capped : FeeState → ℕ → ℕ
capped fs n =
    if fs.ramp_up_multiplier == 0
    then n
    else min n ((fs.max_fee_bps - fs.baseline_fee_bps) * 10_000_000_000 / fs.ramp_up_multiplier)

cap_volatility-pos :
    (fs : FeeState) (n : ℕ)
    → fs.max_fee_bps < 2 ^ 32
    → fs.baseline_fee_bps ≤ fs.max_fee_bps
    → cap_volatility fs (pos n) ≡ pos (capped fs n)
unfolding cap_volatility
cap_volatility-pos fs n h k = ground arith

capped-le : (fs : FeeState) (n : ℕ) → capped fs n ≤ n
capped-le fs n = ground arith

-- The observation: the price change scaled by the size of the trade.
abbrev pub observed : ℕ → ℕ → ℕ → ℕ
observed delta trade total = delta * (trade * scale_ℕ / total) / scale_ℕ

-- An accepted update of a valid fee state keeps it valid, stamps it, and leaves an accumulator that
-- is not negative, is no larger than the larger of the old one and the observation, and is at most
-- the value at which the fee meets its maximum.
pub update_volatility_bounds :
    (env : Env) (fs : FeeState) (v delta trade total : ℕ) {fs' : FeeState}
    → IsFeeState fs
    → fs.vol_accumulator ≡ pos v
    → update_volatility env fs (pos delta) (pos trade) (pos total) ≡ ok fs'
    → (w : ℕ) × (fs' ≡ record fs { vol_accumulator = pos w; last_fee_update = env.timestamp })
      × (w ≤ max v (observed delta trade total))
      × (w ≡ capped fs w)
      × IsFeeState fs'
unfolding update_volatility
update_volatility_bounds env fs v delta trade total {fs' = fs'} i e h =
    let (a, ea) = pos_of_nonneg fs.ema_alpha i.alpha_low in
    let o = observed delta trade total in
    let ha : a ≤ scale_ℕ = ground arith in
    let mean = (a * o + (scale_ℕ - a) * v) / scale_ℕ in
    let same : fs'
        ≡ record fs { vol_accumulator = pos (capped fs mean); last_fee_update = env.timestamp } =
      ground (
        arith,
        mul_then_div_lem trade scale_ℕ total,
        mul_then_div_lem delta (trade * scale_ℕ / total) scale_ℕ,
        ema_lem a o v ha,
        cap_volatility-pos fs mean i.cap_fits i.headroom,
      ) in
    (
      capped fs mean,
      same,
      le_trans (capped-le fs mean) (omega (arith, mean_bound a o v ha)),
      ground arith,
      rw same (ground arith),
    )
