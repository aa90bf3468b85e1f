-- ===== src/Factory/Effects.antt =====
-- What each call of the factory has checked and written where it ends with a value.
use coralswap_core.Prelude.{
  Bool, List, Option, arith, if◌then◌else◌, ltb, none, not, some, subst, sym, true, ℕ, ◌+◌, ◌-◌,
  ◌==◌, ◌≡◌, ◌≤◌,
}
use coralswap_core.Env.{Address, Env}
use coralswap_core.Errors.{FactoryError}
use coralswap_core.Factory.Fees.{
  authorize_setter, check_fee_config, max_pair_fee_bps, max_protocol_fee_bps, set_fee_config,
  set_pair_fee,
}
use coralswap_core.Factory.Governance.{verify_multisig}
use coralswap_core.Factory.State.{
  FactoryStorage, FactoryStore, PendingUpgrade, get_factory_storage, put, set_factory_storage,
}
use coralswap_core.Factory.Upgrade.{
  bump_version, execute_upgrade, propose_upgrade, upgrade_delay_ledgers,
}
use coralswap_core.LpToken.{is_some}
use coralswap_core.Outcome.{
  >>=-then, ok, ok-injective, ok_or, ok_or-eq-ok, raise_if, raise_if-eq-ok, require, require-eq-ok,
}

pub authorize_setter-eq-ok :
    (env : Env) (setter : Address) (s : FactoryStore) {f : FactoryStorage}
    → authorize_setter env setter s ≡ ok f
    → (s.factory ≡ some f) × (env.authorized f.fee_to_setter ≡ true)
authorize_setter-eq-ok env setter s h = >>=-then (get_factory_storage s) _ h λ g e h0.
    >>=-then (require (env.authorized setter)) _ h0 λ u k h1.
      >>=-then (raise_if (not (setter == g.fee_to_setter)) FactoryError.unauthorized) _ h1 λ v l h2.
        let at_g = ok_or-eq-ok _ FactoryError.not_initialized e in
        let authorized = require-eq-ok _ k in
        let same = raise_if-eq-ok _ FactoryError.unauthorized l in
        let named : setter ≡ g.fee_to_setter = ground arith in
        let own : env.authorized g.fee_to_setter ≡ true =
          subst (λ a. env.authorized a ≡ true) named authorized in
        (cc, cc)

check_fee_config-eq-ok :
    (fee_to : Option Address) (fee_bps : ℕ) {u : Unit {0}}
    → check_fee_config fee_to fee_bps ≡ ok u
    → is_some fee_to ≡ ltb 0 fee_bps
check_fee_config-eq-ok none fee_bps h =
    let k = raise_if-eq-ok _ FactoryError.invalid_fee_recipient h in ground arith
check_fee_config-eq-ok (some fee_to) fee_bps h =
    let k = raise_if-eq-ok _ FactoryError.fee_disabled h in ground arith

pub set_fee_config-eq-ok :
    (env : Env) (setter : Address) (fee_to : Option Address) (fee_bps : ℕ) (s : FactoryStore)
    {s' : FactoryStore}
    → set_fee_config env setter fee_to fee_bps s ≡ ok s'
    → (f : FactoryStorage) × (s.factory ≡ some f)
      × (env.authorized f.fee_to_setter ≡ true)
      × (fee_bps ≤ 30)
      × (is_some fee_to ≡ ltb 0 fee_bps)
      × (s' ≡ set_factory_storage (record f { fee_to = fee_to; fee_bps = fee_bps }) s)
unfolding set_fee_config
set_fee_config-eq-ok env setter fee_to fee_bps s h =
    >>=-then (authorize_setter env setter s) _ h λ f e h0.
      >>=-then (raise_if (ltb max_protocol_fee_bps fee_bps) FactoryError.fee_too_high) _ h0
        λ u k h1. >>=-then (check_fee_config fee_to fee_bps) _ h1 λ v l h2.
          let (at_f, authorized) = authorize_setter-eq-ok env setter s e in
          let low = raise_if-eq-ok _ FactoryError.fee_too_high k in
          (f, at_f, authorized, ground arith, check_fee_config-eq-ok fee_to fee_bps l, ground arith)

pub set_pair_fee-eq-ok :
    (env : Env) (setter pair : Address) (fee_bps : ℕ) (s : FactoryStore) {s' : FactoryStore}
    → set_pair_fee env setter pair fee_bps s ≡ ok s'
    → (f : FactoryStorage) × (s.factory ≡ some f)
      × (env.authorized f.fee_to_setter ≡ true)
      × (fee_bps ≤ 100)
      × (s' ≡ record s {
        pair_fee_override =
            put pair (if fee_bps == 0 then none else some fee_bps) s.pair_fee_override;
      })
unfolding set_pair_fee
set_pair_fee-eq-ok env setter pair fee_bps s h =
    >>=-then (authorize_setter env setter s) _ h λ f e h0.
      >>=-then (raise_if (ltb max_pair_fee_bps fee_bps) FactoryError.fee_too_high) _ h0 λ u k h1.
        let (at_f, authorized) = authorize_setter-eq-ok env setter s e in
        let low = raise_if-eq-ok _ FactoryError.fee_too_high k in
        (f, at_f, authorized, ground arith, sym (ok-injective h1))

pub propose_upgrade-eq-ok :
    (env : Env) (signers : List Address) (hash : ℕ) (s : FactoryStore) {s' : FactoryStore}
    → propose_upgrade env signers hash s ≡ ok s'
    → (f : FactoryStorage) × (u : Unit {0}) × (s.factory ≡ some f)
      × (verify_multisig env f.signers signers ≡ ok u)
      × (s.pending_upgrade ≡ none)
      × (s' ≡ record s {
        pending_upgrade = some (record { new_wasm_hash = hash; proposed_at_ledger = env.sequence });
      })
unfolding propose_upgrade
propose_upgrade-eq-ok env signers hash s h = >>=-then (get_factory_storage s) _ h λ f e h0.
    >>=-then (verify_multisig env f.signers signers) _ h0 λ u k h1.
      >>=-then (raise_if (is_some s.pending_upgrade) FactoryError.upgrade_already_pending) _ h1
        λ v l h2.
          let clear = raise_if-eq-ok _ FactoryError.upgrade_already_pending l in
          (f, u, ok_or-eq-ok _ FactoryError.not_initialized e, k, ground arith, ground arith)

bump_version-keeps :
    (s : FactoryStore) {s' : FactoryStore}
    → bump_version s ≡ ok s'
    → (s'.wasm_hash ≡ s.wasm_hash) × (s'.pending_upgrade ≡ s.pending_upgrade)
bump_version-keeps s h = ground arith

pub execute_upgrade-eq-ok :
    (env : Env) (uploaded : ℕ → Bool) (s : FactoryStore) {s' : FactoryStore}
    → execute_upgrade env uploaded s ≡ ok s'
    → (p : PendingUpgrade) × (s.pending_upgrade ≡ some p)
      × (p.proposed_at_ledger + 51_840 ≤ env.sequence)
      × (s'.wasm_hash ≡ p.new_wasm_hash)
      × (s'.pending_upgrade ≡ none)
unfolding execute_upgrade
execute_upgrade-eq-ok env uploaded s h =
    >>=-then (ok_or s.pending_upgrade FactoryError.no_pending_upgrade) _ h λ p e h0.
      >>=-then
        (raise_if (ltb (env.sequence - p.proposed_at_ledger) upgrade_delay_ledgers)
          FactoryError.upgrade_timelock_not_expired)
        _ h0
        λ u k h1. >>=-then (require (uploaded p.new_wasm_hash)) _ h1 λ v l h2.
          let waited = raise_if-eq-ok _ FactoryError.upgrade_timelock_not_expired k in
          let (own_hash, own_pending) =
            bump_version-keeps (record s { wasm_hash = p.new_wasm_hash; pending_upgrade = none })
              h2 in
          (p, ok_or-eq-ok _ FactoryError.no_pending_upgrade e, ground arith, own_hash, own_pending)
