-- ===== src/Factory/Untouched.antt =====
-- Only the three calls of an upgrade change the pending proposal or the code of the factory.
use coralswap_core.Factory.Pairs
use coralswap_core.Prelude.{Bool, List, Option, arith, ℕ, ◌≡◌}
use coralswap_core.Env.{Address, Env}
use coralswap_core.Factory.Fees.{
  deposit_protocol_fee, set_fee_config, set_fee_to_setter, set_pair_fee,
}
use coralswap_core.Factory.Pairs.{
  create_pair, freeze_pair, register, set_pair_lp_token_paused, set_pair_stale_threshold,
  set_paused, unfreeze_pair,
}
use coralswap_core.Factory.State.{Deployed, FactoryStore, FactoryWorld}
use coralswap_core.Int.{ℤ}
use coralswap_core.Outcome.{ok}

-- The same pending proposal and the same code.
abbrev pub SameUpgrade : FactoryStore → FactoryStore → Type 0
SameUpgrade s s' = (s'.pending_upgrade ≡ s.pending_upgrade) × (s'.wasm_hash ≡ s.wasm_hash)

module _ {W : Type 0} (d : Deployed W) where
  pub create_pair-SameUpgrade :
      (env : Env) (a b : Address) (w : FactoryWorld W) {v : Address × FactoryWorld W}
      → create_pair d env a b w ≡ ok v
      → SameUpgrade w.store v.1.store
  unfolding create_pair register
  create_pair-SameUpgrade env a b w h = ground arith

  pub freeze_pair-SameUpgrade :
      (env : Env) (signers : List Address) (pair : Address) (w : FactoryWorld W)
      {w' : FactoryWorld W}
      → freeze_pair d env signers pair w ≡ ok w'
      → SameUpgrade w.store w'.store
  unfolding freeze_pair
  freeze_pair-SameUpgrade env signers pair w h = ground arith

  pub unfreeze_pair-SameUpgrade :
      (env : Env) (signers : List Address) (pair : Address) (w : FactoryWorld W)
      {w' : FactoryWorld W}
      → unfreeze_pair d env signers pair w ≡ ok w'
      → SameUpgrade w.store w'.store
  unfolding unfreeze_pair
  unfreeze_pair-SameUpgrade env signers pair w h = ground arith

pub initialize-SameUpgrade :
    (signers : List Address) (p c l : ℕ) (setter : Address) (s : FactoryStore) {s' : FactoryStore}
    → Pairs.initialize signers p c l setter s ≡ ok s'
    → SameUpgrade s s'
unfolding Pairs.initialize
initialize-SameUpgrade signers p c l setter s h = ground arith

pub set_paused-SameUpgrade :
    (env : Env) (signers : List Address) (paused : Bool) (s : FactoryStore) {s' : FactoryStore}
    → set_paused env signers paused s ≡ ok s'
    → SameUpgrade s s'
unfolding set_paused
set_paused-SameUpgrade env signers paused s h = ground arith

pub set_fee_config-SameUpgrade :
    (env : Env) (setter : Address) (fee_to : Option Address) (fee_bps : ℕ) (s : FactoryStore)
    {s' : FactoryStore}
    → set_fee_config env setter fee_to fee_bps s ≡ ok s'
    → SameUpgrade s s'
unfolding set_fee_config
set_fee_config-SameUpgrade env setter fee_to fee_bps s h = ground arith

pub set_pair_fee-SameUpgrade :
    (env : Env) (setter pair : Address) (fee_bps : ℕ) (s : FactoryStore) {s' : FactoryStore}
    → set_pair_fee env setter pair fee_bps s ≡ ok s'
    → SameUpgrade s s'
unfolding set_pair_fee
set_pair_fee-SameUpgrade env setter pair fee_bps s h = ground arith

pub deposit_protocol_fee-SameUpgrade :
    (env : Env) (pair token : Address) (amount : ℤ) (s : FactoryStore) {s' : FactoryStore}
    → deposit_protocol_fee env pair token amount s ≡ ok s'
    → SameUpgrade s s'
unfolding deposit_protocol_fee
deposit_protocol_fee-SameUpgrade env pair token amount s h = ground arith

pub set_fee_to_setter-SameUpgrade :
    (env : Env) (setter new_setter : Address) (s : FactoryStore) {s' : FactoryStore}
    → set_fee_to_setter env setter new_setter s ≡ ok s'
    → SameUpgrade s s'
unfolding set_fee_to_setter
set_fee_to_setter-SameUpgrade env setter new_setter s h = ground arith

module _ {W : Type 0} (d : Deployed W) where
  pub set_pair_lp_token_paused-SameUpgrade :
      (env : Env) (setter pair : Address) (paused : Bool) (w : FactoryWorld W) {w' : FactoryWorld W}
      → set_pair_lp_token_paused d env setter pair paused w ≡ ok w'
      → SameUpgrade w.store w'.store
  unfolding set_pair_lp_token_paused
  set_pair_lp_token_paused-SameUpgrade env setter pair paused w h = ground arith

  pub set_pair_stale_threshold-SameUpgrade :
      (env : Env) (setter pair : Address) (threshold : ℕ) (w : FactoryWorld W) {w' : FactoryWorld W}
      → set_pair_stale_threshold d env setter pair threshold w ≡ ok w'
      → SameUpgrade w.store w'.store
  unfolding set_pair_stale_threshold
  set_pair_stale_threshold-SameUpgrade env setter pair threshold w h = ground arith
