-- ===== src/Factory/Calls.antt =====
-- The calls of the factory that change state, one by one and in sequence.
use coralswap_core.Factory.Fees
use coralswap_core.Factory.Pairs
use coralswap_core.Factory.Upgrade
use coralswap_core.Prelude.{Bool, List, Option, [], ℕ, ◌∷◌}
use coralswap_core.Env.{Address, Env}
use coralswap_core.Errors.{FactoryError}
use coralswap_core.Factory.State.{Deployed, FactoryStore, FactoryWorld}
use coralswap_core.Int.{ℤ}
use coralswap_core.Outcome.{Outcome, err, ok, trap}

pub data FactoryCall : Type 0 where
  initialize : List Address → ℕ → ℕ → ℕ → Address → FactoryCall
  create_pair : Address → Address → FactoryCall
  set_paused : List Address → Bool → FactoryCall
  freeze_pair : List Address → Address → FactoryCall
  unfreeze_pair : List Address → Address → FactoryCall
  set_fee_config : Address → Option Address → ℕ → FactoryCall
  set_fee_to_setter : Address → Address → FactoryCall
  set_pair_fee : Address → Address → ℕ → FactoryCall
  set_pair_lp_token_paused : Address → Address → Bool → FactoryCall
  set_pair_stale_threshold : Address → Address → ℕ → FactoryCall
  deposit_protocol_fee : Address → Address → ℤ → FactoryCall
  propose_upgrade : List Address → ℕ → FactoryCall
  execute_upgrade : (ℕ → Bool) → FactoryCall
  cancel_upgrade : List Address → FactoryCall

module _ {W : Type 0} (d : Deployed W) where
  -- A call that only writes the factory's own storage.
  abbrev pub on_store :
      Outcome FactoryError FactoryStore → FactoryWorld W → Outcome FactoryError (FactoryWorld W)
  on_store (ok s) w = ok (record w { store = s })
  on_store (err e) w = err e
  on_store trap w = trap

  abbrev pub drop_value :
      Outcome FactoryError (Address × FactoryWorld W) → Outcome FactoryError (FactoryWorld W)
  drop_value (ok v) = ok v.1
  drop_value (err e) = err e
  drop_value trap = trap

  unfoldable pub factory_step :
      Env → FactoryCall → FactoryWorld W → Outcome FactoryError (FactoryWorld W)
  factory_step env (FactoryCall.initialize signers p c l setter) w =
      on_store (Pairs.initialize signers p c l setter w.store) w
  factory_step env (FactoryCall.create_pair a b) w = drop_value (Pairs.create_pair d env a b w)
  factory_step env (FactoryCall.set_paused signers paused) w =
      on_store (Pairs.set_paused env signers paused w.store) w
  factory_step env (FactoryCall.freeze_pair signers pair) w = Pairs.freeze_pair d env signers pair w
  factory_step env (FactoryCall.unfreeze_pair signers pair) w =
      Pairs.unfreeze_pair d env signers pair w
  factory_step env (FactoryCall.set_fee_config setter fee_to fee_bps) w =
      on_store (Fees.set_fee_config env setter fee_to fee_bps w.store) w
  factory_step env (FactoryCall.set_fee_to_setter setter new_setter) w =
      on_store (Fees.set_fee_to_setter env setter new_setter w.store) w
  factory_step env (FactoryCall.set_pair_fee setter pair fee_bps) w =
      on_store (Fees.set_pair_fee env setter pair fee_bps w.store) w
  factory_step env (FactoryCall.set_pair_lp_token_paused setter pair paused) w =
      Pairs.set_pair_lp_token_paused d env setter pair paused w
  factory_step env (FactoryCall.set_pair_stale_threshold setter pair threshold) w =
      Pairs.set_pair_stale_threshold d env setter pair threshold w
  factory_step env (FactoryCall.deposit_protocol_fee pair token amount) w =
      on_store (Fees.deposit_protocol_fee env pair token amount w.store) w
  factory_step env (FactoryCall.propose_upgrade signers hash) w =
      on_store (Upgrade.propose_upgrade env signers hash w.store) w
  factory_step env (FactoryCall.execute_upgrade uploaded) w =
      on_store (Upgrade.execute_upgrade env uploaded w.store) w
  factory_step env (FactoryCall.cancel_upgrade signers) w =
      on_store (Upgrade.cancel_upgrade env signers w.store) w

  -- The host drops what a failing call has written.
  abbrev pub settled : Outcome FactoryError (FactoryWorld W) → FactoryWorld W → FactoryWorld W
  settled (ok w') w = w'
  settled (err e) w = w
  settled trap w = w

  -- The latest call stands first.
  unfoldable pub factory_run : List (Env × FactoryCall) → FactoryWorld W → FactoryWorld W
  unfolding factory_step
  factory_run [] w = w
  factory_run ((env, call) ∷ earlier) w =
      let before = factory_run earlier w in settled (factory_step env call before) before
