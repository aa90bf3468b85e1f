-- ===== src/Pair/Tests/Deposits.antt =====
-- Witnesses of the theorems on deposits and withdrawals.
use coralswap_core.LpToken
use coralswap_core.Pair.Burn
use coralswap_core.Pair.Mint
use coralswap_core.Prelude.{
  [], arith, false, if◌then◌else◌, none, refl, some, true, ℕ, ◌&&◌, ◌<◌, ◌==◌, ◌∷◌, ◌≡◌,
}
use coralswap_core.Balances.{read, write}
use coralswap_core.Env.{Address, Env}
use coralswap_core.Fee.{
  apply_time_decay, cap_volatility, compute_fee_bps, decay_stale_ema, ema, raw_fee,
  update_volatility,
}
use coralswap_core.Int.{
  checked_add, checked_div, checked_mul, checked_sub, leb_ℤ, ltb_ℤ, negsuc, pos, ℤ, ◌*ℤ◌, ◌+ℤ◌,
  ◌-ℤ◌,
}
use coralswap_core.LpToken.{LpToken, burn_internal}
use coralswap_core.Math.{
  burn_amounts, compute_swap_in_for_single_side, discriminant, get_amount_out, initial_liquidity,
  minimum_liquidity, mul_then_div, sqrt_u256, subsequent_liquidity, swap_in_amount,
}
use coralswap_core.Outcome.{ok}
use coralswap_core.Pair.Burn.{burn_payout, clear_pending, is_dust_left, redeemable}
use coralswap_core.Pair.Calls.{PairCall, pair_step}
use coralswap_core.Pair.Deposit.{mint_effect, seed_of}
use coralswap_core.Pair.DoubleCount.{reserves_exceed_balances}
use coralswap_core.Pair.Mint.{mint_liquidity}
use coralswap_core.Pair.SeedGain.{withdrawal_outpays_deposit}
use coralswap_core.Pair.Single.{issue_lp, mint_with_one_token}
use coralswap_core.Pair.Staging.{IsStaged, staging_is_kept}
use coralswap_core.Pair.State.{
  FactoryView, PairStorage, World, acquire, min_liquidity_for_user, minimum_reserve,
}
use coralswap_core.Pair.Swap.{
  adjusted, amount_in, check_k, check_outputs, effective_fee, forward_fees, pay, price,
  protocol_fee, record_protocol_fee, settle_reserves, swap_fee, swap_inner, track_volatility,
}
use coralswap_core.Pair.Tests.{
  Ledger, by, credit, factory_view, holdings, pays_back, plain_tokens, pool, pool_lp, pool_store,
  start, value_or,
}
use coralswap_core.Pair.Withdrawal.{burn_effect}
use coralswap_core.Quote.{quote_output_amount}

-- The provider 4 has just sent 1_000 and 2_000.
abbrev deposited : World Ledger
deposited = record start { ledger = credit 21 9 (pos 2_000) holdings }

abbrev after_mint : World Ledger × ℤ
unfolding Mint.mint acquire mint_liquidity subsequent_liquidity initial_liquidity mul_then_div
    LpToken.mint checked_sub checked_add checked_mul checked_div write
after_mint = value_or (start, pos 0) (Mint.mint plain_tokens (by 4) 4 deposited)

mint_effect_example :
    ((by 4).authorized 4 ≡ true)
    × (deposited.store.frozen ≡ false)
    × (deposited.store.lp_token_paused ≡ false)
    × (let bal_a = plain_tokens.balance deposited.ledger pool.token_a (by 4).contract in
        let bal_b = plain_tokens.balance deposited.ledger pool.token_b (by 4).contract in
        (after_mint.0.store.pair_state
          ≡ some (record pool {
            reserve_a = bal_a;
            reserve_b = bal_b;
            k_last = bal_a *ℤ bal_b;
            block_timestamp_last = (by 4).timestamp;
          }))
        × (leb_ℤ minimum_reserve (bal_a -ℤ pool.reserve_a) ≡ true)
        × (leb_ℤ minimum_reserve (bal_b -ℤ pool.reserve_b) ≡ true))
    × (leb_ℤ min_liquidity_for_user after_mint.1 ≡ true)
    × (after_mint.0.lp.total_supply
        ≡ deposited.lp.total_supply +ℤ seed_of deposited.lp.total_supply +ℤ after_mint.1)
    × (after_mint.0.ledger ≡ deposited.ledger)
unfolding Mint.mint acquire mint_liquidity subsequent_liquidity initial_liquidity mul_then_div
    LpToken.mint checked_sub checked_add checked_mul checked_div write
mint_effect_example = mint_effect plain_tokens (by 4) 4 deposited pool {r = after_mint} refl refl

abbrev after_burn : World Ledger × ℤ × ℤ
unfolding Burn.burn acquire redeemable burn_payout burn_amounts mul_then_div LpToken.burn
    burn_internal clear_pending checked_sub checked_mul checked_div write
after_burn = value_or (start, pos 0, pos 0) (Burn.burn plain_tokens (by 4) 4 start)

burn_effect_example :
    ((by 4).authorized 4 ≡ true)
    × (start.store.lp_token_paused ≡ false)
    × (let pending = read 4 start.store.pending_lp in
        let l =
          if ltb_ℤ (pos 0) pending
          then pending
          else LpToken.balance start.lp (by 4).contract
            -ℤ minimum_liquidity
            -ℤ start.store.pending_lp_total in
        (burn_amounts l pool.reserve_a pool.reserve_b (start.lp.total_supply -ℤ minimum_liquidity)
          ≡ ok (after_burn.1, after_burn.2))
        × (after_burn.0.lp.total_supply ≡ start.lp.total_supply -ℤ l))
    × (leb_ℤ minimum_reserve after_burn.1 ≡ true)
    × (leb_ℤ minimum_reserve after_burn.2 ≡ true)
    × (after_burn.0.store.pair_state
        ≡ some (record pool {
          reserve_a = pool.reserve_a -ℤ after_burn.1;
          reserve_b = pool.reserve_b -ℤ after_burn.2;
          k_last = (pool.reserve_a -ℤ after_burn.1) *ℤ (pool.reserve_b -ℤ after_burn.2);
          block_timestamp_last = (by 4).timestamp;
        }))
    × (is_dust_left (pool.reserve_a -ℤ after_burn.1) ≡ false)
    × (is_dust_left (pool.reserve_b -ℤ after_burn.2) ≡ false)
    × (let pending = read 4 start.store.pending_lp in
        ((a : Address)
          → read a after_burn.0.store.pending_lp
            ≡ (if ltb_ℤ (pos 0) pending && a == 4 then pos 0 else read a start.store.pending_lp))
        × (after_burn.0.store.pending_lp_total ≡ (
            if ltb_ℤ (pos 0) pending
            then start.store.pending_lp_total -ℤ pending
            else start.store.pending_lp_total)))
    × ((t : Ledger) × (plain_tokens.transfer pool.token_a
            (by 4).contract
            4
            after_burn.1
            start.ledger
          ≡ some t)
        × (plain_tokens.transfer pool.token_b (by 4).contract 4 after_burn.2 t
            ≡ some after_burn.0.ledger))
unfolding Burn.burn acquire redeemable burn_payout burn_amounts mul_then_div LpToken.burn
    burn_internal clear_pending checked_sub checked_mul checked_div write
burn_effect_example =
    burn_effect plain_tokens (by 4) 4 start pool {r = after_burn} refl (refl, tt) refl

staging_is_kept_example : IsStaged after_burn.0.store
unfolding pair_step ◌+ℤ◌ Burn.burn acquire redeemable burn_payout burn_amounts mul_then_div
    LpToken.burn burn_internal clear_pending checked_sub checked_mul checked_div write
staging_is_kept_example =
    staging_is_kept plain_tokens pays_back (by 4) factory_view (PairCall.burn 4) start
      {w' = after_burn.0} (refl, (refl, tt)) refl

-- A small pool to which 4 has just added 2_000 and 4_000, for 2_000 of the LP.
abbrev small_pool : PairStorage
small_pool = record pool { reserve_a = pos 4_000; reserve_b = pos 8_000; k_last = pos 32_000_000 }

abbrev staged : ℤ → World Ledger
staged amount = record start {
  store = record pool_store {
    pair_state = some small_pool;
    pending_lp = (4, amount) ∷ [];
    pending_lp_total = amount;
  };
  lp = record pool_lp { total_supply = pos 4_000; balances = (9, pos 4_000) ∷ [] };
}

abbrev after_gain : World Ledger × ℤ × ℤ
unfolding Burn.burn acquire redeemable burn_payout burn_amounts mul_then_div LpToken.burn
    burn_internal clear_pending checked_sub checked_mul checked_div write
after_gain = value_or (start, pos 0, pos 0) (Burn.burn plain_tokens (by 4) 4 (staged (pos 2_000)))

withdrawal_outpays_deposit_example :
    (pa : ℕ) × (pb : ℕ) × (after_gain.1 ≡ pos pa)
    × (after_gain.2 ≡ pos pb)
    × (2_000 < pa)
    × (4_000 < pb)
unfolding Burn.burn acquire redeemable burn_payout burn_amounts mul_then_div LpToken.burn
    burn_internal clear_pending checked_sub checked_mul checked_div write subsequent_liquidity
withdrawal_outpays_deposit_example =
    withdrawal_outpays_deposit plain_tokens (by 4) 4 (staged (pos 2_000)) small_pool 2_000 4_000
      2_000 4_000 2_000 2_000 {r = after_gain} refl refl refl refl refl (refl, tt) (omega arith)
      (omega arith) refl refl (omega arith) (omega arith) refl refl

abbrev after_all : World Ledger × ℤ × ℤ
unfolding Burn.burn acquire redeemable burn_payout burn_amounts mul_then_div LpToken.burn
    burn_internal clear_pending checked_sub checked_mul checked_div write
after_all = value_or (start, pos 0, pos 0) (Burn.burn plain_tokens (by 4) 4 (staged (pos 3_000)))

-- No fee goes to the protocol, and the pair holds exactly its reserves.
abbrev plain_view : FactoryView
plain_view = record factory_view { fee_to = none }

abbrev balanced : World Ledger
balanced = record start { ledger = credit 20 9 (negsuc 999) holdings }

abbrev after_single : World Ledger × ℤ
unfolding mint_with_one_token issue_lp compute_swap_in_for_single_side swap_in_amount discriminant
    sqrt_u256 get_amount_out quote_output_amount subsequent_liquidity LpToken.mint checked_add write
    acquire swap_inner check_outputs swap_fee decay_stale_ema apply_time_decay compute_fee_bps
    raw_fee effective_fee pay amount_in check_k adjusted protocol_fee forward_fees settle_reserves
    track_volatility price update_volatility mul_then_div ema cap_volatility record_protocol_fee
    checked_sub checked_mul checked_div
after_single =
    value_or (balanced, pos 0)
      (mint_with_one_token plain_tokens (by 3) plain_view 3 20 (pos 4_000) (pos 1) balanced)

reserves_exceed_balances_example :
    (state' : PairStorage) × (after_single.0.store.pair_state ≡ some state')
    × (ltb_ℤ
          (plain_tokens.balance after_single.0.ledger pool.token_a (by 3).contract)
          state'.reserve_a
        ≡ true)
    × (ltb_ℤ
          (plain_tokens.balance after_single.0.ledger pool.token_b (by 3).contract)
          state'.reserve_b
        ≡ true)
unfolding mint_with_one_token issue_lp compute_swap_in_for_single_side swap_in_amount discriminant
    sqrt_u256 get_amount_out quote_output_amount subsequent_liquidity LpToken.mint checked_add write
    acquire swap_inner check_outputs swap_fee decay_stale_ema apply_time_decay compute_fee_bps
    raw_fee effective_fee pay amount_in check_k adjusted protocol_fee forward_fees settle_reserves
    track_volatility price update_volatility mul_then_div ema cap_volatility record_protocol_fee
    checked_sub checked_mul checked_div
reserves_exceed_balances_example =
    reserves_exceed_balances plain_tokens (by 3) plain_view 3 20 (pos 4_000) (pos 1) balanced pool
      {r = after_single} refl refl refl
