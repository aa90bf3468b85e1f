-- ===== src/Pair/Single.antt =====
-- The single-sided deposit and withdrawal: `Pair::mint_with_one_token` and `Pair::burn_single_side`.
use coralswap_core.LpToken
use coralswap_core.Prelude.{Bool, if◌then◌else◌, not, ℕ, ◌==◌, ◌||◌}
use coralswap_core.Env.{Address, Env, invoke}
use coralswap_core.Errors.{PairError}
use coralswap_core.Fee.{compute_fee_bps}
use coralswap_core.Int.{checked_add, checked_mul, checked_sub, eq_ℤ, leb_ℤ, ltb_ℤ, pos, ℤ}
use coralswap_core.LpToken.{LpToken}
use coralswap_core.Math.{
  compute_swap_in_for_single_side, get_amount_out, minimum_liquidity, mul_then_div,
  subsequent_liquidity,
}
use coralswap_core.Outcome.{Outcome, err, ok, ok_or, raise_if, require, trap, unwrap, ◌>>=◌, ◌>>◌}
use coralswap_core.Pair.State.{
  FactoryView, PairStorage, TokenClient, World, acquire, ensure_lp_token_not_paused,
  ensure_not_frozen, get_fee_state, get_pair_state, min_liquidity_for_user, nested, release,
  set_pair_state,
}
use coralswap_core.Pair.Swap.{swap_inner}

abbrev pub is_pool_token : PairStorage → Address → Bool
is_pool_token state token = token == state.token_a || token == state.token_b

-- `Err(PairError::DustAmount) => 0`
abbrev pub tolerate_dust : Outcome PairError ℤ → Outcome PairError ℤ
tolerate_dust (ok out) = ok out
tolerate_dust (err PairError.dust_amount) = ok (pos 0)
tolerate_dust (err e) = err e
tolerate_dust trap = trap

-- What the unwanted share buys from the reserves after the burn: nothing from an empty side, and
-- nothing for dust.
unfoldable pub swap_leg : ℤ → ℤ → ℤ → ℕ → Outcome PairError ℤ
swap_leg share_unwanted reserve_unwanted reserve_preferred fee_bps =
    let quoted =
      tolerate_dust (get_amount_out share_unwanted reserve_unwanted reserve_preferred fee_bps) in
    if eq_ℤ reserve_preferred (pos 0) then ok (pos 0) else quoted

-- The check of the invariant against the reserves after the burn.
unfoldable pub check_leg_k : ℤ → ℤ → ℤ → ℤ → ℤ → ℕ → Outcome PairError (Unit {0})
check_leg_k preferred_post unwanted_post preferred_final unwanted_final share_unwanted fee_bps = do
  k ← ok_or (checked_mul preferred_post unwanted_post) PairError.overflow
  k_before ← ok_or (checked_mul k (pos 100_000_000)) PairError.overflow
  preferred_adj ← ok_or (checked_mul preferred_final (pos 10_000)) PairError.overflow
  scaled ← ok_or (checked_mul unwanted_final (pos 10_000)) PairError.overflow
  fee ← ok_or (checked_mul share_unwanted (pos fee_bps)) PairError.overflow
  unwanted_adj ← ok_or (checked_sub scaled fee) PairError.overflow
  k_after ← ok_or (checked_mul preferred_adj unwanted_adj) PairError.overflow
  raise_if (ltb_ℤ k_after k_before) PairError.invalid_k

-- What a burn of one side pays, and what it leaves of the preferred side.
unfoldable pub single_side_payout : ℤ → ℤ → ℤ → ℤ → ℕ → ℤ → Outcome PairError (ℤ × ℤ)
single_side_payout share_preferred share_unwanted reserve_preferred reserve_unwanted fee_bps
      min_amount_out =
    do
      preferred_post ← ok_or (checked_sub reserve_preferred share_preferred) PairError.overflow
      unwanted_post ← ok_or (checked_sub reserve_unwanted share_unwanted) PairError.overflow
      swap_out ← swap_leg share_unwanted unwanted_post preferred_post fee_bps
      total_out ← ok_or (checked_add share_preferred swap_out) PairError.overflow
      raise_if (ltb_ℤ total_out min_amount_out) PairError.slippage_exceeded
      preferred_final ← ok_or (checked_sub preferred_post swap_out) PairError.overflow
      check_leg_k preferred_post unwanted_post preferred_final reserve_unwanted share_unwanted
          fee_bps
      ok (total_out, preferred_final)

module _ {T : Type 0} (tokens : TokenClient T) where
  -- The deposit after the swap, against the reserves that the swap has stored.
  unfoldable pub issue_lp : Env → Address → ℤ → ℤ → ℤ → World T → Outcome PairError (World T × ℤ)
  issue_lp env to deposit_a deposit_b min_lp_out w = do
    post ← get_pair_state w
    raise_if (eq_ℤ w.lp.total_supply (pos 0)) PairError.insufficient_liquidity_minted
    lp_minted ←
        subsequent_liquidity deposit_a deposit_b post.reserve_a post.reserve_b w.lp.total_supply
    raise_if (leb_ℤ lp_minted (pos 0)) PairError.insufficient_liquidity_minted
    raise_if (ltb_ℤ lp_minted min_liquidity_for_user) PairError.dust_amount
    raise_if (ltb_ℤ lp_minted min_lp_out) PairError.slippage_exceeded
    lp' ← nested (LpToken.mint (invoke env post.lp_token) to lp_minted w.lp)
    new_reserve_a ← ok_or (checked_add post.reserve_a deposit_a) PairError.overflow
    new_reserve_b ← ok_or (checked_add post.reserve_b deposit_b) PairError.overflow
    k ← ok_or (checked_mul new_reserve_a new_reserve_b) PairError.overflow
    let state' = record post {
      reserve_a = new_reserve_a;
      reserve_b = new_reserve_b;
      k_last = k;
      block_timestamp_last = env.timestamp;
    }
    ok (record (set_pair_state state' w) { lp = lp' }, lp_minted)

  unfoldable pub mint_with_one_token :
      Env → FactoryView → Address → Address → ℤ → ℤ → World T → Outcome PairError (World T × ℤ)
  mint_with_one_token env view to token_in amount min_lp_out w0 = do
    require (env.authorized to)
    w ← acquire w0
    ensure_not_frozen w
    state ← get_pair_state w
    fee_state ← get_fee_state w
    ensure_lp_token_not_paused w
    raise_if (leb_ℤ amount (pos 0) || leb_ℤ min_lp_out (pos 0)) PairError.invalid_input
    raise_if (not (is_pool_token state token_in)) PairError.invalid_input
    let in_is_a = token_in == state.token_a
    let reserve_in = if in_is_a then state.reserve_a else state.reserve_b
    let reserve_out = if in_is_a then state.reserve_b else state.reserve_a
    raise_if (leb_ℤ reserve_in (pos 0) || leb_ℤ reserve_out (pos 0))
        PairError.insufficient_liquidity
    fee_bps ← compute_fee_bps fee_state
    swap_in ← compute_swap_in_for_single_side reserve_in amount fee_bps
    raise_if (leb_ℤ swap_in (pos 0) || leb_ℤ amount swap_in) PairError.invalid_input
    t ← unwrap (tokens.transfer token_in to env.contract amount w.ledger)
    swap_out ← get_amount_out swap_in reserve_in reserve_out fee_bps
    raise_if (leb_ℤ swap_out (pos 0)) PairError.insufficient_liquidity
    deposit_in ← ok_or (checked_sub amount swap_in) PairError.overflow
    raise_if (leb_ℤ deposit_in (pos 0) || leb_ℤ swap_out (pos 0))
        PairError.insufficient_liquidity_minted
    let out_a = if in_is_a then pos 0 else swap_out
    let out_b = if in_is_a then swap_out else pos 0
    w2 ← swap_inner tokens env view out_a out_b env.contract (record w { ledger = t })
    let deposit_a = if in_is_a then deposit_in else swap_out
    let deposit_b = if in_is_a then swap_out else deposit_in
    (w3, lp_minted) ← issue_lp env to deposit_a deposit_b min_lp_out w2
    ok (release w3, lp_minted)

  unfoldable pub burn_single_side :
      Env → Address → ℤ → Address → ℤ → World T → Outcome PairError (World T × ℤ)
  burn_single_side env to lp_amount preferred_token min_amount_out w0 = do
    require (env.authorized to)
    w ← acquire w0
    ensure_not_frozen w
    state ← get_pair_state w
    fee_state ← get_fee_state w
    ensure_lp_token_not_paused w
    raise_if (leb_ℤ lp_amount (pos 0) || leb_ℤ min_amount_out (pos 0)) PairError.invalid_input
    raise_if (not (is_pool_token state preferred_token)) PairError.invalid_input
    let prefer_a = preferred_token == state.token_a
    let total_supply = w.lp.total_supply
    raise_if (eq_ℤ total_supply (pos 0)) PairError.insufficient_liquidity_burned
    lp' ← nested (LpToken.burn (invoke env state.lp_token) to lp_amount w.lp)
    burnable_supply ← ok_or (checked_sub total_supply minimum_liquidity) PairError.overflow
    raise_if (eq_ℤ burnable_supply (pos 0)) PairError.insufficient_liquidity_burned
    share_a ← mul_then_div lp_amount state.reserve_a burnable_supply
    share_b ← mul_then_div lp_amount state.reserve_b burnable_supply
    raise_if (leb_ℤ share_a (pos 0) || leb_ℤ share_b (pos 0))
        PairError.insufficient_liquidity_burned
    let share_preferred = if prefer_a then share_a else share_b
    let share_unwanted = if prefer_a then share_b else share_a
    let reserve_preferred = if prefer_a then state.reserve_a else state.reserve_b
    let reserve_unwanted = if prefer_a then state.reserve_b else state.reserve_a
    fee_bps ← compute_fee_bps fee_state
    (total_out, preferred_final) ←
        single_side_payout share_preferred share_unwanted reserve_preferred reserve_unwanted fee_bps
          min_amount_out
    t ← unwrap (tokens.transfer preferred_token env.contract to total_out w.ledger)
    let reserve_a' = if prefer_a then preferred_final else reserve_unwanted
    let reserve_b' = if prefer_a then reserve_unwanted else preferred_final
    k ← ok_or (checked_mul reserve_a' reserve_b') PairError.overflow
    let state' = record state {
      reserve_a = reserve_a';
      reserve_b = reserve_b';
      k_last = k;
      block_timestamp_last = env.timestamp;
    }
    ok (release (record (set_pair_state state' w) { lp = lp'; ledger = t }), total_out)
