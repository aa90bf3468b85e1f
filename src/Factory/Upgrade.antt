-- ===== src/Factory/Upgrade.antt =====
-- The timelocked upgrade (contracts/factory/src/upgrade.rs) and its entry points in lib.rs.
use coralswap_core.Prelude.{Bool, List, ltb, none, not, some, ℕ, ◌-◌}
use coralswap_core.Env.{Address, Env}
use coralswap_core.Errors.{FactoryError}
use coralswap_core.Factory.Governance.{verify_multisig}
use coralswap_core.Factory.State.{FactoryStore, add_u32, get_factory_storage, set_factory_storage}
use coralswap_core.LpToken.{is_some}
use coralswap_core.Outcome.{Outcome, ok, ok_or, raise_if, require, unwrap, ◌>>=◌, ◌>>◌}

abbrev pub upgrade_delay_ledgers : ℕ
upgrade_delay_ledgers = 51_840

unfoldable pub propose_upgrade :
    Env → List Address → ℕ → FactoryStore → Outcome FactoryError FactoryStore
unfolding verify_multisig
propose_upgrade env signers new_wasm_hash s = do
  factory ← get_factory_storage s
  verify_multisig env factory.signers signers
  raise_if (is_some s.pending_upgrade) FactoryError.upgrade_already_pending
  ok (record s {
    pending_upgrade =
        some (record { new_wasm_hash = new_wasm_hash; proposed_at_ledger = env.sequence });
  })

-- The upgraded factory counts its versions, if it is initialized.
abbrev pub bump_version : FactoryStore → Outcome FactoryError FactoryStore
bump_version s = elim s.factory [
  | none ↦ ok s
  | some f ↦ do
    version ← unwrap (add_u32 f.protocol_version 1)
    ok (set_factory_storage (record f { protocol_version = version }) s)
]

-- The host refuses a hash of code that nobody has uploaded.
unfoldable pub execute_upgrade : Env → (ℕ → Bool) → FactoryStore → Outcome FactoryError FactoryStore
execute_upgrade env uploaded s = do
  proposal ← ok_or s.pending_upgrade FactoryError.no_pending_upgrade
  let elapsed = env.sequence - proposal.proposed_at_ledger
  raise_if (ltb elapsed upgrade_delay_ledgers) FactoryError.upgrade_timelock_not_expired
  require (uploaded proposal.new_wasm_hash)
  bump_version (record s { wasm_hash = proposal.new_wasm_hash; pending_upgrade = none })

unfoldable pub cancel_upgrade :
    Env → List Address → FactoryStore → Outcome FactoryError FactoryStore
unfolding verify_multisig
cancel_upgrade env signers s = do
  factory ← get_factory_storage s
  verify_multisig env factory.signers signers
  raise_if (not (is_some s.pending_upgrade)) FactoryError.no_pending_upgrade
  ok (record s { pending_upgrade = none })
