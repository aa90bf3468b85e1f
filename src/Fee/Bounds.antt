-- ===== src/Fee/Bounds.antt =====
-- The fee that is charged.
use coralswap_core.Prelude.{
  arith, if◌then◌else◌, le_refl, max, min, mul_mono, true, ℕ, ◌*◌, ◌+◌, ◌-◌, ◌/◌, ◌<◌, ◌^◌, ◌≡◌,
  ◌≤◌,
}
use coralswap_core.Fee.{FeeState, compute_fee_bps, raw_fee, scale}
use coralswap_core.Int.{abs, leb_ℤ, ltb_ℤ, negsuc, pos, ℤ}
use coralswap_core.Outcome.{ok}

-- A fee state whose bounds are ordered, whose smoothing factor is a fraction, and whose accumulator
-- is not negative.
pub record IsFeeState (fs : FeeState) : Type 0 where
  pub ordered : fs.min_fee_bps ≤ fs.max_fee_bps
  pub headroom : fs.baseline_fee_bps ≤ fs.max_fee_bps
  pub cap_fits : fs.max_fee_bps < 2 ^ 32
  pub alpha_low : leb_ℤ (pos 0) fs.ema_alpha ≡ true
  pub alpha_high : leb_ℤ fs.ema_alpha scale ≡ true
  pub vol_low : leb_ℤ (pos 0) fs.vol_accumulator ≡ true

abbrev pub clamped : ℤ → ℕ → ℕ → ℕ
clamped z lo hi = if ltb_ℤ z (pos lo) then lo else if ltb_ℤ (pos hi) z then hi else abs z

clamped_bounds : (z : ℤ) (lo hi : ℕ) → lo ≤ hi → (lo ≤ clamped z lo hi) × (clamped z lo hi ≤ hi)
clamped_bounds (pos a) lo hi h = ground arith
clamped_bounds (negsuc a) lo hi h = ground arith

clamped_mono :
    (a b : ℤ) (lo hi : ℕ) → lo ≤ hi → leb_ℤ a b ≡ true → clamped a lo hi ≤ clamped b lo hi
clamped_mono (pos a) (pos b) lo hi h k = ground arith
clamped_mono (pos a) (negsuc b) lo hi h k = ground arith
clamped_mono (negsuc a) (pos b) lo hi h k = ground arith
clamped_mono (negsuc a) (negsuc b) lo hi h k = ground arith

compute-eq-clamped :
    {E : Type 0} (fs : FeeState)
    → fs.min_fee_bps ≤ fs.max_fee_bps
    → compute_fee_bps {E = E} fs ≡ ok (clamped (raw_fee fs) fs.min_fee_bps fs.max_fee_bps)
unfolding compute_fee_bps
compute-eq-clamped fs h = ground arith

-- With ordered bounds the fee exists and lies within them, for every accumulator.
pub compute_fee_bps_bounds :
    {E : Type 0} (fs : FeeState)
    → fs.min_fee_bps ≤ fs.max_fee_bps
    → (fee : ℕ) × (compute_fee_bps {E = E} fs ≡ ok fee)
      × (fs.min_fee_bps ≤ fee)
      × (fee ≤ fs.max_fee_bps)
compute_fee_bps_bounds fs h =
    let (low, high) = clamped_bounds (raw_fee fs) fs.min_fee_bps fs.max_fee_bps h in
    (clamped (raw_fee fs) fs.min_fee_bps fs.max_fee_bps, compute-eq-clamped fs h, low, high)

abbrev pub at_vol : FeeState → ℕ → FeeState
at_vol fs v = record fs { vol_accumulator = pos v }

abbrev sat : ℕ → ℕ
sat n = min n (2 ^ 127 - 1)

raw_fee-at_vol :
    (fs : FeeState) (v : ℕ)
    → fs.max_fee_bps < 2 ^ 32
    → fs.baseline_fee_bps ≤ fs.max_fee_bps
    → raw_fee (at_vol fs v)
      ≡ pos (sat (fs.baseline_fee_bps + sat (v * fs.ramp_up_multiplier) / 10_000_000_000))
unfolding raw_fee
raw_fee-at_vol fs v h k = ground arith

raw_fee_mono :
    (base ramp a b : ℕ)
    → a ≤ b
    → sat (base + sat (a * ramp) / 10_000_000_000) ≤ sat (base + sat (b * ramp) / 10_000_000_000)
raw_fee_mono base ramp a b h =
    let product = mul_mono a b ramp ramp h (le_refl ramp) in
    let inner : sat (a * ramp) ≤ sat (b * ramp) = omega arith in omega arith

-- A larger accumulator gives no lower fee, and an accumulator of zero gives the baseline within its
-- bounds.
pub compute_fee_bps_mono :
    {E : Type 0} (fs : FeeState) (a b : ℕ) {x y : ℕ}
    → IsFeeState fs
    → a ≤ b
    → compute_fee_bps {E = E} (at_vol fs a) ≡ ok x
    → compute_fee_bps {E = E} (at_vol fs b) ≡ ok y
    → (x ≤ y)
      × (compute_fee_bps {E = E} (at_vol fs 0) ≡ ok (max fs.min_fee_bps fs.baseline_fee_bps))
compute_fee_bps_mono {E} fs a b v h ea eb =
    let fee_of = λ (k : ℕ). compute-eq-clamped {E = E} (at_vol fs k) v.ordered in
    let raw_of = λ (k : ℕ). raw_fee-at_vol fs k v.cap_fits v.headroom in
    (
      ground (
        arith,
        fee_of a,
        fee_of b,
        raw_of a,
        raw_of b,
        raw_fee_mono fs.baseline_fee_bps fs.ramp_up_multiplier a b h,
      ),
      ground (arith, fee_of 0, raw_of 0),
    )
