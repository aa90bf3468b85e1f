-- ===== src/Factory/State.antt =====
-- The storage of the factory (contracts/factory/src/storage.rs), and what it calls.
use coralswap_core.Prelude.{
  Bool, List, Option, [], false, if◌then◌else◌, ltb, none, some, true, ℕ, ◌+◌, ◌==◌, ◌^◌, ◌||◌, ◌∷◌,
}
use coralswap_core.Env.{Address}
use coralswap_core.Errors.{FactoryError}
use coralswap_core.Int.{ℤ}
use coralswap_core.Outcome.{Outcome, ok_or}

pub record FactoryStorage : Type 0 where
  pub signers : List Address
  pub pair_wasm_hash : ℕ
  pub concentrated_pair_wasm_hash : ℕ
  pub lp_token_wasm_hash : ℕ
  pub pair_count : ℕ
  pub protocol_version : ℕ
  pub paused : Bool
  pub fee_to : Option Address
  pub fee_to_setter : Address
  pub fee_bps : ℕ

pub record PendingUpgrade : Type 0 where
  pub new_wasm_hash : ℕ
  pub proposed_at_ledger : ℕ

-- The entries by their `DataKey`, the balances of protocol fees by token, and the code that the
-- factory itself runs.
pub record FactoryStore : Type 0 where
  pub factory : Option FactoryStorage
  pub pair : Address → Address → Option Address
  pub pending_upgrade : Option PendingUpgrade
  pub pair_list : List Address
  pub pair_fee_override : Address → Option ℕ
  pub total_pairs : ℕ
  pub pair_frozen : Address → Bool
  pub pair_flag : Address → Option Bool
  pub lp_token_flag : Address → Bool
  pub protocol_fee_balance : Address → ℤ
  pub wasm_hash : ℕ

-- What the factory calls: the host's deployer and hash, and the contracts that it has deployed, with
-- `W` for their state. `none` is a call that fails, whether by an error or a trap.
pub record Deployed (W : Type 0) : Type 0 where
  pub pair_salt : Address → Address → ℕ
  pub lp_salt : Address → ℕ
  pub deploy : ℕ → ℕ → W → Option (Address × W)
  pub initialize_lp_token : Address → Address → Address → Address → W → Option W
  pub initialize_pair : Address → Address → Address → Address → Address → W → Option W
  pub set_frozen : Address → Bool → W → Option W
  pub set_lp_token_paused : Address → Bool → W → Option W
  pub set_stale_threshold : Address → ℕ → W → Option W

pub record FactoryWorld (W : Type 0) : Type 0 where
  pub store : FactoryStore
  pub others : W

-- A write of one entry.
abbrev pub put {ℓ} : {A : Type ℓ} → Address → A → (Address → A) → Address → A
put k v f a = if a == k then v else f a

abbrev pub mem : Address → List Address → Bool
mem a [] = false
mem a (x ∷ xs) = a == x || mem a xs

-- `a + b` of type `u32`.
abbrev pub add_u32 : ℕ → ℕ → Option ℕ
add_u32 a b = if ltb (a + b) (2 ^ 32) then some (a + b) else none

-- `storage::is_pair`: the flag, or else the search of the list.
abbrev pub is_pair : FactoryStore → Address → Bool
is_pair s p = elim (s.pair_flag p) [ none ↦ mem p s.pair_list | some b ↦ b ]

abbrev pub get_factory_storage : FactoryStore → Outcome FactoryError FactoryStorage
get_factory_storage s = ok_or s.factory FactoryError.not_initialized

abbrev pub set_factory_storage : FactoryStorage → FactoryStore → FactoryStore
set_factory_storage f s = record s { factory = some f }

abbrev pub is_some {ℓ} : {A : Type ℓ} → Option A → Bool
is_some none = false
is_some (some a) = true
