-- ===== src/Pair/Setup.antt =====
-- `Pair::initialize` of contracts/pair/src/lib.rs.
use coralswap_core.Pair.Admin
use coralswap_core.Prelude.{arith, false, none, refl, some, ◌==◌, ◌≡◌}
use coralswap_core.Env.{Address, Env}
use coralswap_core.Errors.{PairError}
use coralswap_core.Fee.{FeeState}
use coralswap_core.Fee.Bounds.{IsFeeState}
use coralswap_core.Int.{pos}
use coralswap_core.Outcome.{err, ok}
use coralswap_core.Pair.Admin.{default_fee_state, is_known_contract, is_own_contract}
use coralswap_core.Pair.State.{FactoryView, PairStorage, Store}

default_fee_state-IsFeeState : IsFeeState default_fee_state
default_fee_state-IsFeeState = record {
  ordered = omega arith;
  headroom = omega arith;
  cap_fits = omega arith;
  alpha_low = refl;
  alpha_high = refl;
  vol_low = refl;
}

-- An initialization that succeeds is the first one, of two different tokens of which neither is the
-- factory, the pair, its LP token, or a contract of another pool; the pair starts unlocked and empty,
-- with a valid fee state, and no initialization succeeds afterwards.
pub initialize_once :
    (env : Env) (view : FactoryView) (factory token_a token_b lp_token : Address) (store : Store)
    {store' : Store}
    → Admin.initialize env view factory token_a token_b lp_token store ≡ ok store'
    → (store.pair_state ≡ none)
      × ((token_a == token_b) ≡ false)
      × (is_own_contract token_a factory env.contract lp_token ≡ false)
      × (is_own_contract token_b factory env.contract lp_token ≡ false)
      × (is_known_contract view token_a ≡ false)
      × (is_known_contract view token_b ≡ false)
      × (store'.locked ≡ false)
      × ((state : PairStorage) × (store'.pair_state ≡ some state)
          × (state.reserve_a ≡ pos 0)
          × (state.reserve_b ≡ pos 0)
          × (state.k_last ≡ pos 0))
      × ((fees : FeeState) × (store'.fee_state ≡ some fees) × IsFeeState fees)
      × ((env' : Env) (view' : FactoryView) (f a b lp : Address)
          → Admin.initialize env' view' f a b lp store' ≡ err PairError.already_initialized)
unfolding Admin.initialize
initialize_once env view f a b lp store {store'} h =
    let state : PairStorage = record {
      factory = f;
      token_a = a;
      token_b = b;
      lp_token = lp;
      reserve_a = pos 0;
      reserve_b = pos 0;
      block_timestamp_last = env.timestamp;
      k_last = pos 0;
    } in
    (
      ground arith,
      ground arith,
      ground arith,
      ground arith,
      ground arith,
      ground arith,
      ground arith,
      (state, ground arith, refl, refl, refl),
      (default_fee_state, ground arith, default_fee_state-IsFeeState),
      λ env' view' f' a' b' lp'. ground arith,
    )
