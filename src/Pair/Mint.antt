-- ===== src/Pair/Mint.antt =====
-- `Pair::mint`: the deposit of both tokens.
use coralswap_core.LpToken
use coralswap_core.Prelude.{if◌then◌else◌, ◌||◌}
use coralswap_core.Env.{Address, Env, invoke}
use coralswap_core.Errors.{PairError}
use coralswap_core.Int.{checked_mul, checked_sub, eq_ℤ, leb_ℤ, ltb_ℤ, pos, ℤ}
use coralswap_core.LpToken.{LpToken}
use coralswap_core.Math.{initial_liquidity, minimum_liquidity, subsequent_liquidity}
use coralswap_core.Outcome.{Outcome, ok, ok_or, raise_if, require, ◌>>=◌, ◌>>◌}
use coralswap_core.Pair.State.{
  PairStorage, TokenClient, World, acquire, ensure_lp_token_not_paused, ensure_not_frozen,
  get_pair_state, min_liquidity_for_user, minimum_reserve, nested, release, set_pair_state,
}

-- The liquidity of a deposit, and the LP token after the locked seed of a first deposit is minted.
unfoldable pub mint_liquidity :
    Env → PairStorage → ℤ → ℤ → LpToken → Outcome PairError (ℤ × LpToken)
mint_liquidity env state amount_a amount_b lp =
    let first = do
      liquidity ← initial_liquidity amount_a amount_b
      lp' ← nested (LpToken.mint (invoke env state.lp_token) env.contract minimum_liquidity lp)
      ok (liquidity, lp')
    in let later = do
      liquidity ←
          subsequent_liquidity amount_a amount_b state.reserve_a state.reserve_b lp.total_supply
      ok (liquidity, lp)
      in if eq_ℤ lp.total_supply (pos 0) then first else later

module _ {T : Type 0} (tokens : TokenClient T) where
  unfoldable pub mint : Env → Address → World T → Outcome PairError (World T × ℤ)
  mint env to w0 = do
    require (env.authorized to)
    w ← acquire w0
    ensure_not_frozen w
    state ← get_pair_state w
    ensure_lp_token_not_paused w
    let balance_a = tokens.balance w.ledger state.token_a env.contract
    let balance_b = tokens.balance w.ledger state.token_b env.contract
    amount_a ← ok_or (checked_sub balance_a state.reserve_a) PairError.invalid_input
    amount_b ← ok_or (checked_sub balance_b state.reserve_b) PairError.invalid_input
    raise_if (ltb_ℤ amount_a minimum_reserve || ltb_ℤ amount_b minimum_reserve)
        PairError.dust_amount
    (liquidity, lp1) ← mint_liquidity env state amount_a amount_b w.lp
    raise_if (leb_ℤ liquidity (pos 0)) PairError.insufficient_liquidity_minted
    raise_if (ltb_ℤ liquidity min_liquidity_for_user) PairError.dust_amount
    lp2 ← nested (LpToken.mint (invoke env state.lp_token) to liquidity lp1)
    k ← ok_or (checked_mul balance_a balance_b) PairError.overflow
    let state' = record state {
      reserve_a = balance_a;
      reserve_b = balance_b;
      k_last = k;
      block_timestamp_last = env.timestamp;
    }
    ok (release (record (set_pair_state state' w) { lp = lp2 }), liquidity)
