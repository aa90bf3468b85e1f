-- ===== src/Pair/State.antt =====
-- The pair's storage (storage.rs), its reentrancy lock (reentrancy.rs), and the contracts around it.
use coralswap_core.Prelude.{Bool, Option, false, some, true, ℕ}
use coralswap_core.Balances.{Balances}
use coralswap_core.Env.{Address}
use coralswap_core.Errors.{PairError}
use coralswap_core.Fee.{FeeState}
use coralswap_core.Int.{pos, ℤ}
use coralswap_core.LpToken.{LpToken}
use coralswap_core.Outcome.{Outcome, err, ok, ok_or, raise_if, trap, ◌>>◌}

pub record PairStorage : Type 0 where
  pub factory : Address
  pub token_a : Address
  pub token_b : Address
  pub lp_token : Address
  pub reserve_a : ℤ
  pub reserve_b : ℤ
  pub block_timestamp_last : ℕ
  pub k_last : ℤ

-- The entries by their `DataKey`; flags and amounts read as `false` and 0 where they are absent.
pub record Store : Type 0 where
  pub pair_state : Option PairStorage
  pub fee_state : Option FeeState
  pub locked : Bool
  pub lp_token_paused : Bool
  pub frozen : Bool
  pub pending_lp : Balances
  pub pending_lp_total : ℤ
  pub protocol_fee_a : ℤ
  pub protocol_fee_b : ℤ

-- The token contracts that the source only calls: `T` is their state, `balance state token holder`
-- and `transfer token from to amount state` their entry points; `none` is a call that fails.
pub record TokenClient (T : Type 0) : Type 0 where
  pub balance : T → Address → Address → ℤ
  pub transfer : Address → Address → Address → ℤ → T → Option T

-- The factory's answers to the pair's `try_` calls. `none` and `false` stand also for a call that
-- fails, which the pair treats alike.
pub record FactoryView : Type 0 where
  pub fee_override : Option ℕ
  pub fee_to : Option Address
  pub fee_bps : Option ℕ
  pub is_pair : Address → Bool
  pub is_lp_token : Address → Bool

-- The state that a call of the pair reads and writes: its own storage, its LP token and the tokens.
pub record World (T : Type 0) : Type 0 where
  pub store : Store
  pub lp : LpToken
  pub ledger : T

abbrev pub minimum_reserve : ℤ
minimum_reserve = pos 1_000

abbrev pub min_liquidity_for_user : ℤ
min_liquidity_for_user = pos 1_000

-- A nested call through a plain client: what is no value traps.
abbrev pub nested : {E F A : Type 0} → Outcome E A → Outcome F A
nested (ok a) = ok a
nested (err e) = trap
nested trap = trap

module _ {T : Type 0} where
  abbrev pub set_locked : Bool → World T → World T
  set_locked b w = record w { store = record w.store { locked = b } }

  abbrev pub set_pair_state : PairStorage → World T → World T
  set_pair_state s w = record w { store = record w.store { pair_state = some s } }

  -- `ReentrancyGuard::acquire`
  unfoldable pub acquire : World T → Outcome PairError (World T)
  acquire w = do raise_if w.store.locked PairError.locked; ok (set_locked true w)

  -- The guard's `drop`. On a path that ends with an error the host drops the write of the lock too.
  abbrev pub release : World T → World T
  release w = set_locked false w

  abbrev pub ensure_not_frozen : World T → Outcome PairError (Unit {0})
  ensure_not_frozen w = raise_if w.store.frozen PairError.contract_frozen

  abbrev pub ensure_lp_token_not_paused : World T → Outcome PairError (Unit {0})
  ensure_lp_token_not_paused w = raise_if w.store.lp_token_paused PairError.lp_token_paused

  abbrev pub get_pair_state : World T → Outcome PairError PairStorage
  get_pair_state w = ok_or w.store.pair_state PairError.not_initialized

  abbrev pub get_fee_state : World T → Outcome PairError FeeState
  get_fee_state w = ok_or w.store.fee_state PairError.not_initialized
