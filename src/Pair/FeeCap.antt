-- ===== src/Pair/FeeCap.antt =====
-- The bound on the rate that a swap charges (`swap_inner` of contracts/pair/src/lib.rs).
use coralswap_core.Prelude.{Option, arith, none, refl, some, ℕ, ◌≡◌, ◌≤◌}
use coralswap_core.Env.{Env}
use coralswap_core.Errors.{PairError}
use coralswap_core.Fee.{FeeState, apply_time_decay, compute_fee_bps, decay_stale_ema}
use coralswap_core.Fee.Bounds.{compute_fee_bps_bounds}
use coralswap_core.Outcome.{>>=-then, ok}
use coralswap_core.Pair.State.{FactoryView}
use coralswap_core.Pair.Swap.{effective_fee, swap_fee}

-- Neither the dynamic fee nor the factory's override passes 100%.
pub record IsFeeCapped (view : FactoryView) (fees : FeeState) : Type 0 where
  pub ordered_bounds : fees.min_fee_bps ≤ fees.max_fee_bps
  pub dynamic_capped : fees.max_fee_bps ≤ 10_000
  pub override_capped : (rate : ℕ) → view.fee_override ≡ some rate → rate ≤ 10_000

decay_stale_ema-keeps :
    (env : Env) (fs : FeeState) {fs' : FeeState}
    → decay_stale_ema {E = PairError} env fs ≡ ok fs'
    → (fs'.min_fee_bps ≡ fs.min_fee_bps) × (fs'.max_fee_bps ≡ fs.max_fee_bps)
unfolding decay_stale_ema apply_time_decay
decay_stale_ema-keeps env fs h = ground arith

effective_fee-le :
    (override : Option ℕ) (dynamic : ℕ)
    → ((rate : ℕ) → override ≡ some rate → rate ≤ 10_000)
    → dynamic ≤ 10_000
    → effective_fee override dynamic ≤ 10_000
unfolding effective_fee
effective_fee-le none dynamic h k = k
effective_fee-le (some rate) dynamic h k = let cap = h rate refl in ground arith

pub swap_fee-le :
    (env : Env) (view : FactoryView) (fees : FeeState) {decayed : FeeState} {fee : ℕ}
    → IsFeeCapped view fees
    → swap_fee env view fees ≡ ok (decayed, fee)
    → fee ≤ 10_000
unfolding swap_fee
swap_fee-le env view fees {decayed} {fee} cap h =
    >>=-then (decay_stale_ema env fees) _ h λ fs g0 h0.
      >>=-then (compute_fee_bps fs) _ h0 λ dynamic g1 h1.
        let (low, high) = decay_stale_ema-keeps env fees g0 in
        let (d, ed, _, le) =
          compute_fee_bps_bounds {E = PairError} fs (rw (low, high) cap.ordered_bounds) in
        let bound =
          effective_fee-le view.fee_override dynamic cap.override_capped
            (let same : d ≡ dynamic = cc in omega (arith, cap.dynamic_capped)) in
        let e : fee ≡ effective_fee view.fee_override dynamic = cc in rw e bound
