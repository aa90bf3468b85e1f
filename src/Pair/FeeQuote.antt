-- ===== src/Pair/FeeQuote.antt =====
-- The rate that `Pair::get_effective_fee_bps` reports and the rate that `swap_inner` charges
-- (contracts/pair/src/lib.rs).
use coralswap_core.Prelude.{
  Bool, Option, arith, leb→le, none, refl, some, sym, ℕ, ◌+◌, ◌<◌, ◌^◌, ◌∙◌, ◌≡◌, ◌≤◌,
}
use coralswap_core.Env.{Env}
use coralswap_core.Errors.{PairError}
use coralswap_core.Fee.{
  FeeState, apply_time_decay, compute_fee_bps, decay_stale_ema, raw_fee, update_volatility,
}
use coralswap_core.Fee.Bounds.{IsFeeState, at_vol, compute_fee_bps_mono}
use coralswap_core.Fee.Decay.{decay_stale_ema-IsFeeState, decay_waits_for_timestamp}
use coralswap_core.Int.{pos, ℤ}
use coralswap_core.Int.Laws.{pos_of_nonneg}
use coralswap_core.Outcome.{>>=-then, Outcome, err, ok, ok_or, ok_or-eq-ok, trap, ◌>>=◌}
use coralswap_core.Pair.Admin.{get_effective_fee_bps}
use coralswap_core.Pair.Calls.{map_ok}
use coralswap_core.Pair.State.{FactoryView, Store}
use coralswap_core.Pair.Swap.{effective_fee, swap_fee}

-- The settings that the rate reads.
abbrev SameSettings : FeeState → FeeState → Type 0
SameSettings x y =
    (x.min_fee_bps ≡ y.min_fee_bps)
    × (x.max_fee_bps ≡ y.max_fee_bps)
    × (x.baseline_fee_bps ≡ y.baseline_fee_bps)
    × (x.ramp_up_multiplier ≡ y.ramp_up_multiplier)

decay-SameSettings :
    (env : Env) (fs : FeeState) {fs' : FeeState}
    → decay_stale_ema {E = PairError} env fs ≡ ok fs'
    → SameSettings fs' fs
unfolding decay_stale_ema apply_time_decay
decay-SameSettings env fs h = ground arith

-- The rate depends on a state only through its settings and its accumulator.
rate_at_vol :
    (x y : FeeState) (v : ℕ)
    → SameSettings x y
    → x.vol_accumulator ≡ pos v
    → compute_fee_bps {E = PairError} x ≡ compute_fee_bps (at_vol y v)
unfolding compute_fee_bps raw_fee
rate_at_vol x y v (a, b, c, d) e = rw (a, b, c, d, e) refl

-- A state that is not due for decay stays.
decay_idle :
    (env : Env) (fs : FeeState) {fs' : FeeState}
    → env.sequence ≤ fs.last_fee_update + fs.stale_threshold
    → decay_stale_ema {E = PairError} env fs ≡ ok fs'
    → fs' ≡ fs
unfolding decay_stale_ema
decay_idle env fs le h = ground arith

effective_fee_mono :
    (override : Option ℕ) (x y : ℕ) → x ≤ y → effective_fee override x ≤ effective_fee override y
unfolding effective_fee
effective_fee_mono none x y h = h
effective_fee_mono (some rate) x y h = ground arith

quoted_rate :
    (view : FactoryView) (store : Store) (fs : FeeState) {rate : ℕ} {is_override : Bool}
    → store.fee_state ≡ some fs
    → get_effective_fee_bps view store ≡ ok (rate, is_override)
    → (dynamic : ℕ) × (compute_fee_bps {E = PairError} fs ≡ ok dynamic)
      × (rate ≡ effective_fee view.fee_override dynamic)
unfolding get_effective_fee_bps effective_fee
quoted_rate view store fs es h =
    >>=-then (ok_or store.pair_state PairError.not_initialized) _ h λ state g0 h0.
      >>=-then (ok_or store.fee_state PairError.not_initialized) _ h0 λ fees g1 h1.
        >>=-then (compute_fee_bps fees) _ h1 λ dynamic g2 h2.
          let same : fees ≡ fs =
            let e = ok_or-eq-ok store.fee_state PairError.not_initialized g1 in cc in
          (dynamic, cc, ground arith)

-- The rate that a quote reads is never below the rate that a swap charges on the same state, and the
-- two are equal unless the accumulator is due for decay.
pub quote_covers_charge :
    (env : Env) (view : FactoryView) (store : Store) (fs decayed : FeeState) (rate fee : ℕ)
    (is_override : Bool)
    → store.fee_state ≡ some fs
    → IsFeeState fs
    → get_effective_fee_bps view store ≡ ok (rate, is_override)
    → swap_fee env view fs ≡ ok (decayed, fee)
    → (fee ≤ rate) × (env.sequence ≤ fs.last_fee_update + fs.stale_threshold → fee ≡ rate)
unfolding swap_fee
quote_covers_charge env view store fs decayed rate fee o es valid q s =
    let (v, ev) = pos_of_nonneg fs.vol_accumulator valid.vol_low in
    let (quoted, k0, rate_eq) = quoted_rate view store fs es q in
    >>=-then (decay_stale_ema env fs) _ s λ fs' g0 s0.
      >>=-then (compute_fee_bps fs') _ s0 λ charged g1 s1.
        let (valid', grown) = decay_stale_ema-IsFeeState {E = PairError} env fs valid g0 in
        let (u, eu) = pos_of_nonneg fs'.vol_accumulator valid'.vol_low in
        let at_u = rate_at_vol fs' fs u (decay-SameSettings env fs g0) eu in
        let at_v = rate_at_vol fs fs v (refl, refl, refl, refl) ev in
        let le : u ≤ v = leb→le u v cc in
        let (mono, _) =
          compute_fee_bps_mono {E = PairError} fs u v {x = charged} {y = quoted} valid le
            (sym at_u ∙ g1) (sym at_v ∙ k0) in
        let fee_eq : fee ≡ effective_fee view.fee_override charged = cc in
        (
          rw (fee_eq, rate_eq) (effective_fee_mono view.fee_override charged quoted mono),
          λ fresh. let idle = decay_idle env fs fresh g0 in cc,
        )

map_ok-bind :
    {A B : Type 0} (f : A → B) (m : Outcome PairError A) → (m >>= λ a. ok (f a)) ≡ map_ok f m
map_ok-bind f (ok a) = refl
map_ok-bind f (err e) = refl
map_ok-bind f trap = refl

-- The clocks differ: an accepted update of the volatility at one ledger stamps the state with the
-- timestamp, and a later swap compares that stamp with the sequence number. Until its sequence number
-- passes the timestamp of the update by the stale threshold, a swap decays nothing, however many
-- ledgers lie between, and charges the rate of the state as the update left it.
pub charge_waits_for_timestamp :
    (env later : Env) (view : FactoryView) (fs : FeeState) (delta trade total : ℤ) {fs' : FeeState}
    → update_volatility env fs delta trade total ≡ ok fs'
    → later.sequence ≤ env.timestamp + fs.stale_threshold
    → env.timestamp + fs.stale_threshold < 2 ^ 64
    → swap_fee later view fs'
      ≡ map_ok (λ rate. (fs', effective_fee view.fee_override rate)) (compute_fee_bps fs')
unfolding swap_fee
charge_waits_for_timestamp env later view fs delta trade total {fs'} h k b =
    rw (decay_waits_for_timestamp {E = PairError} env later fs delta trade total h k b)
      (map_ok-bind (λ rate. (fs', effective_fee view.fee_override rate)) (compute_fee_bps fs'))
