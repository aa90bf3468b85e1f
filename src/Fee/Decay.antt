-- ===== src/Fee/Decay.antt =====
-- Time decay of the accumulator.
use native.Mathlib.Nat.{pow-zero, pow-succ', div-div-eq-div-mul}
use coralswap_core.Prelude.{
  ap, arith, if◌then◌else◌, max, min, suc, true, zero, ℕ, ◌+◌, ◌-◌, ◌/◌, ◌<◌, ◌==◌, ◌^◌, ◌||◌, ◌≡◌,
  ◌≤◌,
}
use coralswap_core.Env.{Env}
use coralswap_core.Fee.{
  FeeState, apply_time_decay, decay_loop, decay_stale_ema, max_decay_periods, update_volatility,
}
use coralswap_core.Fee.Bounds.{IsFeeState}
use coralswap_core.Int.{leb_ℤ, pos, ℤ}
use coralswap_core.Int.Laws.{pos_of_nonneg}
use coralswap_core.Outcome.{ok}

decay_loop-pos : (n d v : ℕ) → 0 < d → decay_loop n (pos d) (pos v) ≡ pos (v / d ^ n)
unfolding decay_loop
decay_loop-pos zero d v h = ap pos (rw pow-zero (omega arith))
decay_loop-pos (suc n) d v h =
    let power : v / d ^ suc n ≡ v / d / d ^ n = rw (pow-succ', ← div-div-eq-div-mul) in
    let ih = decay_loop-pos n d (v / d) h in rw power (ground arith)

-- A positive accumulator that has been idle is divided once for each whole period since the last
-- update, for 64 periods at most, by a divisor of at least two; less than one period, or an empty
-- accumulator, changes nothing. The loop's early exit makes no difference.
pub apply_time_decay_lem :
    (fs : FeeState) (v now : ℕ)
    → fs.vol_accumulator ≡ pos v
    → let periods =
        min ((now - fs.last_fee_update) / max fs.decay_threshold_blocks 1) max_decay_periods in
      apply_time_decay fs now ≡ (
        if v == 0 || periods == 0 then fs else record fs {
          vol_accumulator = pos (v / max fs.cooldown_divisor 2 ^ periods);
          last_fee_update = now;
        })
unfolding apply_time_decay
apply_time_decay_lem fs v now e =
    let periods =
      min ((now - fs.last_fee_update) / max fs.decay_threshold_blocks 1) max_decay_periods in
    ground (arith, decay_loop-pos periods (max fs.cooldown_divisor 2) v (omega arith))

apply_time_decay-IsFeeState :
    (now v : ℕ) (fs : FeeState)
    → fs.vol_accumulator ≡ pos v
    → IsFeeState fs
    → IsFeeState (apply_time_decay fs now)
      × (leb_ℤ (apply_time_decay fs now).vol_accumulator (pos v) ≡ true)
apply_time_decay-IsFeeState now v fs e i =
    let periods =
      min ((now - fs.last_fee_update) / max fs.decay_threshold_blocks 1) max_decay_periods in
    let power = max fs.cooldown_divisor 2 ^ periods in
    let smaller : v / power ≤ v = omega arith in rw (apply_time_decay_lem fs v now e) (ground arith)

-- Decay keeps a fee state valid and raises no accumulator.
pub decay_stale_ema-IsFeeState :
    {E : Type 0} (env : Env) (fs : FeeState) {fs' : FeeState}
    → IsFeeState fs
    → decay_stale_ema {E = E} env fs ≡ ok fs'
    → IsFeeState fs' × (leb_ℤ fs'.vol_accumulator fs.vol_accumulator ≡ true)
unfolding decay_stale_ema
decay_stale_ema-IsFeeState env fs i h =
    let (v, e) = pos_of_nonneg fs.vol_accumulator i.vol_low in
    ground (arith, apply_time_decay-IsFeeState env.sequence v fs e i)

-- An accepted update stamps the state with the ledger's timestamp, and the decay compares that stamp
-- with the ledger's sequence number: until the sequence number passes the timestamp of the last
-- accepted update by the stale threshold, the decay leaves the state as it is.
pub decay_waits_for_timestamp :
    {E : Type 0} (env env' : Env) (fs : FeeState) (delta trade total : ℤ) {fs' : FeeState}
    → update_volatility env fs delta trade total ≡ ok fs'
    → env'.sequence ≤ env.timestamp + fs.stale_threshold
    → env.timestamp + fs.stale_threshold < 2 ^ 64
    → decay_stale_ema {E = E} env' fs' ≡ ok fs'
unfolding update_volatility decay_stale_ema
decay_waits_for_timestamp env env' fs delta trade total h k b = ground arith
