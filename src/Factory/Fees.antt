-- ===== src/Factory/Fees.antt =====
-- The fee settings of the factory and the balances of collected fees (contracts/factory/src/lib.rs).
use coralswap_core.Prelude.{Option, if◌then◌else◌, ltb, none, not, some, ℕ, ◌==◌, ◌||◌}
use coralswap_core.Env.{Address, Env}
use coralswap_core.Errors.{FactoryError}
use coralswap_core.Factory.State.{
  FactoryStorage, FactoryStore, get_factory_storage, is_pair, put, set_factory_storage,
}
use coralswap_core.Int.{checked_add, leb_ℤ, pos, ℤ}
use coralswap_core.LpToken.{balance, is_some}
use coralswap_core.Outcome.{Outcome, ok, raise_if, require, unwrap, ◌>>=◌, ◌>>◌}

abbrev pub max_protocol_fee_bps : ℕ
max_protocol_fee_bps = 30

abbrev pub max_pair_fee_bps : ℕ
max_pair_fee_bps = 100

-- What the setter's entry points begin with.
abbrev pub authorize_setter : Env → Address → FactoryStore → Outcome FactoryError FactoryStorage
authorize_setter env setter s = do
  factory ← get_factory_storage s
  require (env.authorized setter)
  raise_if (not (setter == factory.fee_to_setter)) FactoryError.unauthorized
  ok factory

-- The `match` on the recipient and the rate.
abbrev pub check_fee_config : Option Address → ℕ → Outcome FactoryError (Unit {0})
check_fee_config none fee_bps = raise_if (ltb 0 fee_bps) FactoryError.invalid_fee_recipient
check_fee_config (some fee_to) fee_bps = raise_if (fee_bps == 0) FactoryError.fee_disabled

unfoldable pub set_fee_config :
    Env → Address → Option Address → ℕ → FactoryStore → Outcome FactoryError FactoryStore
set_fee_config env setter fee_to fee_bps s = do
  factory ← authorize_setter env setter s
  raise_if (ltb max_protocol_fee_bps fee_bps) FactoryError.fee_too_high
  check_fee_config fee_to fee_bps
  ok (set_factory_storage (record factory { fee_to = fee_to; fee_bps = fee_bps }) s)

unfoldable pub set_fee_to_setter :
    Env → Address → Address → FactoryStore → Outcome FactoryError FactoryStore
set_fee_to_setter env setter new_setter s = do
  factory ← authorize_setter env setter s
  ok (set_factory_storage (record factory { fee_to_setter = new_setter }) s)

-- A rate of zero clears the override.
unfoldable pub set_pair_fee :
    Env → Address → Address → ℕ → FactoryStore → Outcome FactoryError FactoryStore
set_pair_fee env setter pair fee_bps s = do
  factory ← authorize_setter env setter s
  raise_if (ltb max_pair_fee_bps fee_bps) FactoryError.fee_too_high
  let fee_override = if fee_bps == 0 then none else some fee_bps
  ok (record s { pair_fee_override = put pair fee_override s.pair_fee_override })

unfoldable pub deposit_protocol_fee :
    Env → Address → Address → ℤ → FactoryStore → Outcome FactoryError FactoryStore
unfolding checked_add
deposit_protocol_fee env pair token amount s = do
  require (env.authorized pair)
  factory ← get_factory_storage s
  raise_if (not (is_some factory.fee_to) || factory.fee_bps == 0) FactoryError.invalid_fee_recipient
  raise_if (not (is_pair s pair)) FactoryError.unauthorized
  raise_if (leb_ℤ amount (pos 0)) FactoryError.unauthorized
  balance ← unwrap (checked_add (s.protocol_fee_balance token) amount)
  ok (record s { protocol_fee_balance = put token balance s.protocol_fee_balance })
