-- ===== src/Pair/Tests/Trades.antt =====
-- Witnesses of the theorems on swaps, fees and loans.
use coralswap_core.Pair.Swap
use coralswap_core.Prelude.{arith, false, none, refl, some, true, ℕ, ◌*◌, ◌+◌, ◌-◌, ◌↔◌, ◌≡◌, ◌≤◌}
use coralswap_core.Env.{Env}
use coralswap_core.Fee.{
  FeeState, apply_time_decay, cap_volatility, compute_fee_bps, decay_loop, decay_stale_ema, ema,
  raw_fee, update_volatility,
}
use coralswap_core.Fee.Bounds.{IsFeeState}
use coralswap_core.Int.{
  checked_add, checked_div, checked_mul, checked_sub, leb_ℤ, neg, pos, ℤ, ◌+ℤ◌,
}
use coralswap_core.Math.{mul_then_div}
use coralswap_core.Outcome.{ok}
use coralswap_core.Pair.Admin.{default_fee_state, get_effective_fee_bps}
use coralswap_core.Pair.Calls.{PairCall, map_ok, pair_step}
use coralswap_core.Pair.Executes.{IsFunded, IsTrading, quoted_swap_succeeds}
use coralswap_core.Pair.FeeQuote.{charge_waits_for_timestamp, quote_covers_charge}
use coralswap_core.Pair.Flash.{
  check_repaid, compute_flash_fee, execute_flash_loan, flash_loan, lend, settle_flash_loan,
}
use coralswap_core.Pair.Governance.{KeepsFlags, only_factory_governs}
use coralswap_core.Pair.Product.{swap_keeps_product}
use coralswap_core.Pair.Quoted.{quote_is_largest_accepted}
use coralswap_core.Pair.Reserves.{HasReserves}
use coralswap_core.Pair.State.{FactoryView, PairStorage, Store, World, acquire}
use coralswap_core.Pair.Swap.{
  adjusted, amount_in, check_k, check_outputs, effective_fee, forward_fees, pay, price,
  protocol_fee, record_protocol_fee, settle_reserves, swap, swap_fee, swap_inner, track_volatility,
}
use coralswap_core.Pair.Tests.{
  Ledger, by, credit, factory_view, factory_view-IsFeeCapped, holdings, pays_back, plain_tokens,
  pool, pool_store, start, value_or,
}
use coralswap_core.Quote.{quote_output_amount}

abbrev after_swap : World Ledger
unfolding Swap.swap acquire swap_inner check_outputs swap_fee decay_stale_ema apply_time_decay
    compute_fee_bps raw_fee effective_fee pay amount_in check_k adjusted protocol_fee forward_fees
    settle_reserves track_volatility price update_volatility mul_then_div ema cap_volatility
    record_protocol_fee checked_sub checked_mul checked_div
after_swap = value_or start (Swap.swap plain_tokens (by 3) factory_view (pos 0) (pos 1_974) 3 start)

swap_keeps_product_example :
    (state' : PairStorage) × (na nb : ℕ) × (after_swap.store.pair_state ≡ some state')
    × HasReserves state' na nb
    × (state'.k_last ≡ pos (na * nb))
    × (100_000 * 200_000 ≤ na * nb)
unfolding Swap.swap acquire swap_inner check_outputs swap_fee decay_stale_ema apply_time_decay
    compute_fee_bps raw_fee effective_fee pay amount_in check_k adjusted protocol_fee forward_fees
    settle_reserves track_volatility price update_volatility mul_then_div ema cap_volatility
    record_protocol_fee checked_sub checked_mul checked_div
swap_keeps_product_example =
    swap_keeps_product plain_tokens (by 3) factory_view (pos 0) (pos 1_974) 3 start
      {w' = after_swap} pool default_fee_state 100_000 200_000 refl refl
      (record { reserve_a_eq = refl; reserve_b_eq = refl }) (omega arith) factory_view-IsFeeCapped
      refl

only_factory_governs_example : KeepsFlags plain_tokens pays_back start after_swap
unfolding pair_step Swap.swap acquire swap_inner check_outputs swap_fee decay_stale_ema
    apply_time_decay compute_fee_bps raw_fee effective_fee pay amount_in check_k adjusted
    protocol_fee forward_fees settle_reserves track_volatility price update_volatility mul_then_div
    ema cap_volatility record_protocol_fee checked_sub checked_mul checked_div
only_factory_governs_example =
    only_factory_governs plain_tokens pays_back (by 3) factory_view
      (PairCall.swap (pos 0) (pos 1_974) 3) start {w' = after_swap} pool refl refl refl

abbrev after_loan : World Ledger
unfolding flash_loan execute_flash_loan lend acquire compute_flash_fee pay check_repaid
    settle_flash_loan checked_sub checked_add checked_mul ◌+ℤ◌
after_loan =
    value_or start (flash_loan plain_tokens pays_back (by 3) 3 (pos 10_000) (pos 0) 40 start)

-- A fee state of some volatility, last updated at ledger 200.
abbrev busy : FeeState
busy = record default_fee_state { vol_accumulator = pos 200_000_000_000; last_fee_update = 200 }

abbrev quoted_bps : ℕ
quoted_bps = 70

abbrev charged_bps : ℕ
charged_bps = 50

abbrev busy_store : Store
busy_store = record pool_store { fee_state = some busy }

busy-IsFeeState : IsFeeState busy
busy-IsFeeState = record {
  ordered = omega arith;
  headroom = omega arith;
  cap_fits = omega arith;
  alpha_low = refl;
  alpha_high = refl;
  vol_low = refl;
}

abbrev at_301 : Env
at_301 = record (by 3) { sequence = 301 }

quote_covers_charge_example :
    (charged_bps ≤ quoted_bps)
    × (at_301.sequence ≤ busy.last_fee_update + busy.stale_threshold → charged_bps ≡ quoted_bps)
unfolding get_effective_fee_bps swap_fee decay_stale_ema apply_time_decay decay_loop compute_fee_bps
    raw_fee effective_fee
quote_covers_charge_example =
    quote_covers_charge at_301 factory_view busy_store busy
      (record busy { vol_accumulator = pos 100_000_000_000; last_fee_update = 301 }) quoted_bps
      charged_bps false refl busy-IsFeeState refl refl

abbrev quoted_out : ℤ
quoted_out = pos 1_974

quote_is_largest_accepted_example :
    (amount_in (pos (100_000 + 1_000)) (pos 100_000) (pos 0) ≡ ok (pos 1_000))
    × (amount_in (pos (200_000 - 1_974)) (pos 200_000) (pos 1_974) ≡ ok (pos 0))
    × ((check_k pool (pos (100_000 + 1_000)) (pos (200_000 - 1_974)) (pos 1_000) (pos 0) 30 ≡ ok tt)
        ↔ (leb_ℤ (pos 1_974) quoted_out ≡ true))
unfolding quote_output_amount
quote_is_largest_accepted_example =
    quote_is_largest_accepted pool 1_000 100_000 200_000 1_974 30 {out = quoted_out} refl refl
      (omega arith) refl (omega arith)

abbrev no_fee_view : FactoryView
no_fee_view = record factory_view { fee_to = none }

abbrev paid_ledger : Ledger
paid_ledger = credit 21 3 (pos 1_974) (credit 21 9 (neg (pos 1_974)) holdings)

start-IsTrading : IsTrading (by 3) no_fee_view start pool 100_000 200_000 30
unfolding swap_fee decay_stale_ema apply_time_decay decay_loop compute_fee_bps raw_fee effective_fee
start-IsTrading = record {
  unlocked = refl;
  thawed = refl;
  state_read = refl;
  first_reserve = refl;
  second_reserve = refl;
  fees = default_fee_state;
  fees_read = refl;
  decayed = default_fee_state;
  charged = refl;
  no_protocol_fee = refl;
}

start-IsFunded :
    IsFunded plain_tokens (by 3) 3 pool 1_000 100_000 200_000 1_974 start.ledger paid_ledger
unfolding ◌+ℤ◌
start-IsFunded = record { paid_out = refl; first_balance = refl; second_balance = refl }

quoted_swap_succeeds_example :
    (w' : World Ledger) × (swap plain_tokens (by 3) no_fee_view (pos 0) (pos 1_974) 3 start ≡ ok w')
    × (state' : PairStorage) × (w'.store.pair_state ≡ some state')
    × (state'.reserve_a ≡ pos (100_000 + 1_000))
    × (state'.reserve_b ≡ pos (200_000 - 1_974))
    × (w'.ledger ≡ paid_ledger)
unfolding quote_output_amount
quoted_swap_succeeds_example =
    quoted_swap_succeeds plain_tokens (by 3) no_fee_view 3 start pool 1_000 100_000 200_000 1_974 30
      paid_ledger start-IsTrading start-IsFunded refl (omega arith) (omega arith) (omega arith)

abbrev after_update : FeeState
after_update = record busy { vol_accumulator = pos 180_050_000_000; last_fee_update = 500 }

charge_waits_for_timestamp_example :
    swap_fee at_301 factory_view after_update
    ≡ map_ok
        (λ rate. (after_update, effective_fee factory_view.fee_override rate))
        (compute_fee_bps after_update)
unfolding update_volatility mul_then_div ema cap_volatility checked_sub checked_mul checked_div
charge_waits_for_timestamp_example =
    charge_waits_for_timestamp (by 3) at_301 factory_view busy (pos 50_000_000_000) (pos 1_000)
      (pos 100_000) {fs' = after_update} refl (omega arith) (omega arith)
