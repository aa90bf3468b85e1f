-- ===== src/Oracle/Update.antt =====
-- What `update_cumulative_prices` records.
use coralswap_core.Prelude.{
  arith, div_bounds, div_le, if◌then◌else◌, ltb, some, ℕ, ◌+◌, ◌-◌, ◌/◌, ◌<◌, ◌^◌, ◌≡◌, ◌≤◌,
}
use coralswap_core.Int.{checked_div, pos, quot, wrapping_add, wrapping_mul}
use coralswap_core.Oracle.{
  Observations, OracleState, Sample, newest, push, update_cumulative_prices,
}
use coralswap_core.Oracle.Prune.{IsPruned, prune_expired_lem}
use coralswap_core.Oracle.Ring.{IsRing, push-IsRing, push_is_enqueue}
use coralswap_core.Outcome.{ok}

push-count :
    (x : Sample) (s : Observations)
    → (push x s).count ≡ (if ltb s.count 24 then s.count + 1 else s.count)
unfolding push
push-count x s = ground arith

newest-push : (x : Sample) (s : Observations) → IsRing s → newest (push x s) ≡ some x
newest-push x s r =
    let count = push-count x s in
    let live = r.live_fit in
    let slots = r.slots_fit in
    let (still, at_last) = push_is_enqueue x s ((push x s).count - 1) r in ground arith

-- A quotient of positive reserves is a price.
checked_div-positive :
    (a b : ℕ) → a < 2 ^ 127 → 0 < b → checked_div (pos a) (pos b) ≡ some (pos (a / b))
unfolding checked_div quot
checked_div-positive a b ha hb =
    let (low, high) = div_bounds a b hb in let small : a / b ≤ a = div_le a b hb in ground arith

-- With positive reserves and some time elapsed, the call returns: both sums grow by the price times
-- the time, modulo 2^128, exactly the expired samples go, and the sample of this ledger is the
-- newest.
pub update_records_sample :
    (now reserve_a reserve_b time_elapsed : ℕ) (s : OracleState)
    → IsRing s.ring
    → 0 < reserve_a
    → reserve_a < 2 ^ 127
    → 0 < reserve_b
    → reserve_b < 2 ^ 127
    → 0 < time_elapsed
    → (k : ℕ) × (kept : Observations) × IsPruned now k s.ring kept
      × (let price_a = pos (reserve_b / reserve_a) in
          let price_b = pos (reserve_a / reserve_b) in
          let sum_a = wrapping_add s.price_a_cumulative (wrapping_mul price_a (pos time_elapsed)) in
          let sum_b = wrapping_add s.price_b_cumulative (wrapping_mul price_b (pos time_elapsed)) in
          let x : Sample = record { at_ledger = now; cumulative_a = sum_a; cumulative_b = sum_b } in
          let s' : OracleState = record {
            price_a_cumulative = sum_a;
            price_b_cumulative = sum_b;
            ring = push x kept;
          } in
          IsRing s'.ring
          × (newest s'.ring ≡ some x)
          × (update_cumulative_prices now (pos reserve_a) (pos reserve_b) time_elapsed s ≡ ok s'))
unfolding update_cumulative_prices
update_records_sample now reserve_a reserve_b time_elapsed s r ha fa hb fb ht =
    let (k, kept, done, p) = prune_expired_lem now s.ring r in
    let at_a = checked_div-positive reserve_b reserve_a fb ha in
    let at_b = checked_div-positive reserve_a reserve_b fa hb in
    (
      k,
      kept,
      p,
      (
        push-IsRing _ kept p.still_ring,
        newest-push _ kept p.still_ring,
        rw (at_a, at_b, done) (ground arith),
      ),
    )
