-- ===== src/Pair/Admin.antt =====
-- The pair's calls that set it up and that govern it, `Pair::sync`, and the views of the fee.
use coralswap_core.LpToken
use coralswap_core.Prelude.{Bool, false, if◌then◌else◌, ltb, none, some, true, ℕ, ◌==◌, ◌||◌}
use coralswap_core.Env.{Address, Env, invoke}
use coralswap_core.Errors.{PairError}
use coralswap_core.Fee.{FeeState, compute_fee_bps, default_stale_ledger_threshold}
use coralswap_core.Int.{checked_mul, pos}
use coralswap_core.LpToken.{LpToken, LpTokenError, is_some}
use coralswap_core.Outcome.{Outcome, err, ok, ok_or, raise_if, require, trap, ◌>>=◌, ◌>>◌}
use coralswap_core.Pair.State.{
  FactoryView, Store, TokenClient, World, acquire, get_pair_state, release, set_pair_state,
}

-- A pool token must not be a contract of this deployment, nor one of the factory's pools.
abbrev pub is_known_contract : FactoryView → Address → Bool
is_known_contract view token = view.is_pair token || view.is_lp_token token

abbrev pub is_own_contract : Address → Address → Address → Address → Bool
is_own_contract token factory contract lp_token =
    token == factory || token == contract || token == lp_token

abbrev pub default_fee_state : FeeState
default_fee_state = record {
  vol_accumulator = pos 0;
  ema_alpha = pos 10_000_000_000_000;
  baseline_fee_bps = 30;
  min_fee_bps = 10;
  max_fee_bps = 100;
  ramp_up_multiplier = 2;
  cooldown_divisor = 2;
  last_fee_update = 0;
  decay_threshold_blocks = 100;
  stale_threshold = default_stale_ledger_threshold;
}

unfoldable pub initialize :
    Env → FactoryView → Address → Address → Address → Address → Store → Outcome PairError Store
initialize env view factory token_a token_b lp_token store = do
  raise_if (is_some store.pair_state) PairError.already_initialized
  raise_if (token_a == token_b) PairError.invalid_input
  raise_if
      (is_own_contract token_a factory env.contract lp_token
        || is_own_contract token_b factory env.contract lp_token)
      PairError.invalid_input
  raise_if (is_known_contract view token_a || is_known_contract view token_b)
      PairError.invalid_input
  ok (record store {
    pair_state = some (record {
      factory = factory;
      token_a = token_a;
      token_b = token_b;
      lp_token = lp_token;
      reserve_a = pos 0;
      reserve_b = pos 0;
      block_timestamp_last = env.timestamp;
      k_last = pos 0;
    });
    fee_state = some default_fee_state;
    locked = false;
  })

unfoldable pub get_current_fee_bps : Store → Outcome PairError ℕ
get_current_fee_bps store = elim store.fee_state [ none ↦ ok 30 | some fs ↦ compute_fee_bps fs ]

-- The rate, and whether it is the factory's.
unfoldable pub get_effective_fee_bps : FactoryView → Store → Outcome PairError (ℕ × Bool)
get_effective_fee_bps view store = do
  state ← ok_or store.pair_state PairError.not_initialized
  fee_state ← ok_or store.fee_state PairError.not_initialized
  dynamic_fee_bps ← compute_fee_bps fee_state
  elim view.fee_override [
    | none ↦ ok (dynamic_fee_bps, false)
    | some override_bps ↦
        ok (if ltb 0 override_bps then (override_bps, true) else (dynamic_fee_bps, false))
  ]

unfoldable pub set_stale_threshold : Env → ℕ → Store → Outcome PairError Store
set_stale_threshold env new_threshold store = do
  state ← ok_or store.pair_state PairError.not_initialized
  fee_state ← ok_or store.fee_state PairError.not_initialized
  require (env.authorized state.factory)
  raise_if (new_threshold == 0 || ltb 100_000 new_threshold) PairError.invalid_stale_threshold
  ok (record store { fee_state = some (record fee_state { stale_threshold = new_threshold }) })

unfoldable pub set_frozen : Env → Bool → Store → Outcome PairError Store
set_frozen env frozen store = do
  state ← ok_or store.pair_state PairError.not_initialized
  require (env.authorized state.factory)
  ok (record store { frozen = frozen })

-- `try_pause` gives the token's typed error and its trap alike as the outer `Err`. The inner `Err`, a
-- value that cannot be converted, does not arise for a unit.
abbrev pub relay_error : {A : Type 0} → Outcome LpTokenError A → Outcome PairError A
relay_error (ok a) = ok a
relay_error (err e) = err PairError.lp_token_unavailable
relay_error trap = err PairError.lp_token_unavailable

module _ {T : Type 0} where
  unfoldable pub set_lp_token_paused : Env → Bool → World T → Outcome PairError (World T)
  set_lp_token_paused env paused w = do
    state ← get_pair_state w
    require (env.authorized state.factory)
    let callee = invoke env state.lp_token
    lp' ← relay_error (if paused then LpToken.pause callee w.lp else LpToken.unpause callee w.lp)
    ok (record w { store = record w.store { lp_token_paused = paused }; lp = lp' })

  unfoldable pub sync : TokenClient T → Env → World T → Outcome PairError (World T)
  sync tokens env w0 = do
    w ← acquire w0
    state ← get_pair_state w
    let balance_a = tokens.balance w.ledger state.token_a env.contract
    let balance_b = tokens.balance w.ledger state.token_b env.contract
    k ← ok_or (checked_mul balance_a balance_b) PairError.overflow
    let state' = record state {
      reserve_a = balance_a;
      reserve_b = balance_b;
      block_timestamp_last = env.timestamp;
      k_last = k;
    }
    ok (release (set_pair_state state' w))
