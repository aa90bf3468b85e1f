-- ===== src/Factory/Timelock.antt =====
-- No upgrade without a quorum's proposal and the delay after it.
use coralswap_core.Prelude.{
  List, [], ap, arith, inl, inr, none, refl, some, some-injective, subst, sym, ℕ, ◌+◌, ◌∙◌, ◌∷◌,
  ◌≡◌, ◌≢◌, ◌≤◌,
}
use coralswap_core.Env.{Address, Env}
use coralswap_core.Errors.{FactoryError}
use coralswap_core.Factory.Calls.{
  FactoryCall, drop_value, factory_run, factory_step, on_store, settled,
}
use coralswap_core.Factory.Effects.{execute_upgrade-eq-ok, propose_upgrade-eq-ok}
use coralswap_core.Factory.Governance.{verify_multisig}
use coralswap_core.Factory.Pairs.{create_pair}
use coralswap_core.Factory.State.{
  Deployed, FactoryStorage, FactoryStore, FactoryWorld, PendingUpgrade,
}
use coralswap_core.Factory.Untouched.{
  SameUpgrade, create_pair-SameUpgrade, deposit_protocol_fee-SameUpgrade, freeze_pair-SameUpgrade,
  initialize-SameUpgrade, set_fee_config-SameUpgrade, set_fee_to_setter-SameUpgrade,
  set_pair_fee-SameUpgrade, set_pair_lp_token_paused-SameUpgrade,
  set_pair_stale_threshold-SameUpgrade, set_paused-SameUpgrade, unfreeze_pair-SameUpgrade,
}
use coralswap_core.Factory.Upgrade.{cancel_upgrade}
use coralswap_core.Outcome.{Outcome, Outcome-cases, err, ok, trap}

-- How a call that ends with a value treats the upgrade.
data UpgradeStep (env : Env) (call : FactoryCall) (s s' : FactoryStore) : Type 0 where
  same : SameUpgrade s s' → UpgradeStep env call s s'
  proposed :
      (signers : List Address) (hash : ℕ) (f : FactoryStorage) (u : Unit {0})
      → call ≡ FactoryCall.propose_upgrade signers hash
      → s.factory ≡ some f
      → verify_multisig env f.signers signers ≡ ok u
      → s'.pending_upgrade
        ≡ some (record { new_wasm_hash = hash; proposed_at_ledger = env.sequence })
      → s'.wasm_hash ≡ s.wasm_hash
      → UpgradeStep env call s s'
  executed :
      (p : PendingUpgrade)
      → s.pending_upgrade ≡ some p
      → p.proposed_at_ledger + 51_840 ≤ env.sequence
      → s'.wasm_hash ≡ p.new_wasm_hash
      → s'.pending_upgrade ≡ none
      → UpgradeStep env call s s'
  cancelled : s'.pending_upgrade ≡ none → s'.wasm_hash ≡ s.wasm_hash → UpgradeStep env call s s'

cancel_upgrade-eq-ok :
    (env : Env) (signers : List Address) (s : FactoryStore) {s' : FactoryStore}
    → cancel_upgrade env signers s ≡ ok s'
    → (s'.pending_upgrade ≡ none) × (s'.wasm_hash ≡ s.wasm_hash)
unfolding cancel_upgrade
cancel_upgrade-eq-ok env signers s h = ground arith

-- The histories of calls, the latest first, in which a quorum of the signers of that time has
-- proposed the hash at the ledger.
pub data IsProposed {W : Type 0} (d : Deployed W) (w : FactoryWorld W) (hash at_ledger : ℕ)
    : List (Env × FactoryCall) → Type 0 where
  here :
      (env : Env) (signers : List Address) (earlier : List (Env × FactoryCall)) (f : FactoryStorage)
      (u : Unit {0})
      → env.sequence ≡ at_ledger
      → (factory_run d earlier w).store.factory ≡ some f
      → verify_multisig env f.signers signers ≡ ok u
      → IsProposed d w hash at_ledger ((env, FactoryCall.propose_upgrade signers hash) ∷ earlier)
  later :
      (c : Env × FactoryCall) (earlier : List (Env × FactoryCall))
      → IsProposed d w hash at_ledger earlier
      → IsProposed d w hash at_ledger (c ∷ earlier)

module _ {W : Type 0} (d : Deployed W) where
  pub on_store-eq-ok :
      (o : Outcome FactoryError FactoryStore) (w : FactoryWorld W) {w' : FactoryWorld W}
      → on_store d o w ≡ ok w'
      → o ≡ ok w'.store
  on_store-eq-ok (ok s) w h = cc
  on_store-eq-ok (err e) w h = cc
  on_store-eq-ok trap w h = cc

  drop_value-eq-ok :
      (o : Outcome FactoryError (Address × FactoryWorld W)) {w' : FactoryWorld W}
      → drop_value d o ≡ ok w'
      → (a : Address) × (o ≡ ok (a, w'))
  drop_value-eq-ok (ok v) h = (v.0, cc)
  drop_value-eq-ok (err e) h = cc
  drop_value-eq-ok trap h = cc

  upgrade_step :
      (env : Env) (call : FactoryCall) (w : FactoryWorld W) {w' : FactoryWorld W}
      → factory_step d env call w ≡ ok w'
      → UpgradeStep env call w.store w'.store
  unfolding factory_step
  upgrade_step env (FactoryCall.initialize signers p c l setter) w h =
      same (initialize-SameUpgrade signers p c l setter w.store (on_store-eq-ok _ w h))
  upgrade_step env (FactoryCall.create_pair a b) w h =
      let (pair, done) = drop_value-eq-ok (create_pair d env a b w) h in
      same (create_pair-SameUpgrade d env a b w done)
  upgrade_step env (FactoryCall.set_paused signers paused) w h =
      same (set_paused-SameUpgrade env signers paused w.store (on_store-eq-ok _ w h))
  upgrade_step env (FactoryCall.freeze_pair signers pair) w h =
      same (freeze_pair-SameUpgrade d env signers pair w h)
  upgrade_step env (FactoryCall.unfreeze_pair signers pair) w h =
      same (unfreeze_pair-SameUpgrade d env signers pair w h)
  upgrade_step env (FactoryCall.set_fee_config setter fee_to fee_bps) w h =
      same (set_fee_config-SameUpgrade env setter fee_to fee_bps w.store (on_store-eq-ok _ w h))
  upgrade_step env (FactoryCall.set_fee_to_setter setter new_setter) w h =
      same (set_fee_to_setter-SameUpgrade env setter new_setter w.store (on_store-eq-ok _ w h))
  upgrade_step env (FactoryCall.set_pair_fee setter pair fee_bps) w h =
      same (set_pair_fee-SameUpgrade env setter pair fee_bps w.store (on_store-eq-ok _ w h))
  upgrade_step env (FactoryCall.set_pair_lp_token_paused setter pair paused) w h =
      same (set_pair_lp_token_paused-SameUpgrade d env setter pair paused w h)
  upgrade_step env (FactoryCall.set_pair_stale_threshold setter pair threshold) w h =
      same (set_pair_stale_threshold-SameUpgrade d env setter pair threshold w h)
  upgrade_step env (FactoryCall.deposit_protocol_fee pair token amount) w h =
      same (deposit_protocol_fee-SameUpgrade env pair token amount w.store (on_store-eq-ok _ w h))
  upgrade_step env (FactoryCall.propose_upgrade signers hash) w {w'} h =
      let (f, u, at_f, quorum, clear, e) =
        propose_upgrade-eq-ok env signers hash w.store (on_store-eq-ok _ w h) in
      proposed signers hash f u refl at_f quorum (ap (λ (s : FactoryStore). s.pending_upgrade) e)
        (ap (λ (s : FactoryStore). s.wasm_hash) e)
  upgrade_step env (FactoryCall.execute_upgrade uploaded) w h =
      let (p, at_p, waited, hash, gone) =
        execute_upgrade-eq-ok env uploaded w.store (on_store-eq-ok _ w h) in
      executed p at_p waited hash gone
  upgrade_step env (FactoryCall.cancel_upgrade signers) w h =
      let (gone, kept) = cancel_upgrade-eq-ok env signers w.store (on_store-eq-ok _ w h) in
      cancelled gone kept

  step-IsProposed :
      (w : FactoryWorld W) (env : Env) (call : FactoryCall) (earlier : List (Env × FactoryCall))
      (s' : FactoryStore) (p : PendingUpgrade)
      → UpgradeStep env call (factory_run d earlier w).store s'
      → s'.pending_upgrade ≡ some p
      → ((factory_run d earlier w).store.pending_upgrade ≡ some p
          → IsProposed d w p.new_wasm_hash p.proposed_at_ledger earlier)
      → IsProposed d w p.new_wasm_hash p.proposed_at_ledger ((env, call) ∷ earlier)
  step-IsProposed w env call earlier s' p (same (pending, code)) k go =
      later (env, call) earlier (go (sym pending ∙ k))
  step-IsProposed w env call earlier s' p
        (proposed signers hash f u is_call at_f quorum pending code) k go =
      let e : record { new_wasm_hash = hash; proposed_at_ledger = env.sequence } ≡ p =
        some-injective (sym pending ∙ k) in
      subst (λ c. IsProposed d w p.new_wasm_hash p.proposed_at_ledger ((env, c) ∷ earlier))
        (sym is_call)
        (subst
          (λ (q : PendingUpgrade).
            IsProposed d w q.new_wasm_hash q.proposed_at_ledger
              ((env, FactoryCall.propose_upgrade signers hash) ∷ earlier))
          e (here env signers earlier f u refl at_f quorum))
  step-IsProposed w env call earlier s' p (executed q at_q waited code gone) k go =
      absurd (ground arith)
  step-IsProposed w env call earlier s' p (cancelled gone code) k go = absurd (ground arith)

  -- The pending proposal of a run was made in it.
  pending-IsProposed :
      (w : FactoryWorld W) (calls : List (Env × FactoryCall)) (p : PendingUpgrade)
      → w.store.pending_upgrade ≡ none
      → (factory_run d calls w).store.pending_upgrade ≡ some p
      → IsProposed d w p.new_wasm_hash p.proposed_at_ledger calls
  unfolding factory_run
  pending-IsProposed w [] p h k = absurd (cc)
  pending-IsProposed w ((env, call) ∷ earlier) p h k =
      let before = factory_run d earlier w in
      elim (Outcome-cases (factory_step d env call before)) [
        | inl (w', e) ↦
            let now : w'.store.pending_upgrade ≡ some p =
              ap (λ o. (settled d o before).store.pending_upgrade) (sym e) ∙ k in
            step-IsProposed w env call earlier w'.store p (upgrade_step env call before e) now
              (pending-IsProposed w earlier p h)
        | inr (inl (x, e)) ↦
            let now : before.store.pending_upgrade ≡ some p =
              ap (λ o. (settled d o before).store.pending_upgrade) (sym e) ∙ k in
            later (env, call) earlier (pending-IsProposed w earlier p h now)
        | inr (inr e) ↦
            let now : before.store.pending_upgrade ≡ some p =
              ap (λ o. (settled d o before).store.pending_upgrade) (sym e) ∙ k in
            later (env, call) earlier (pending-IsProposed w earlier p h now)
      ]

  installed_hash :
      (w w' : FactoryWorld W) (calls : List (Env × FactoryCall)) (env : Env) (call : FactoryCall)
      → w.store.pending_upgrade ≡ none
      → UpgradeStep env call (factory_run d calls w).store w'.store
      → w'.store.wasm_hash ≢ (factory_run d calls w).store.wasm_hash
      → (at_ledger : ℕ) × IsProposed d w w'.store.wasm_hash at_ledger calls
        × (at_ledger + 51_840 ≤ env.sequence)
  installed_hash w w' calls env call h (same (pending, code)) changed = absurd (changed code)
  installed_hash w w' calls env call h (proposed signers hash f u is_call at_f quorum pending code)
        changed =
      absurd (changed code)
  installed_hash w w' calls env call h (executed p at_p waited code gone) changed =
      let made = pending-IsProposed w calls p h at_p in
      (
        p.proposed_at_ledger,
        subst (λ hash. IsProposed d w hash p.proposed_at_ledger calls) (sym code) made,
        waited,
      )
  installed_hash w w' calls env call h (cancelled gone code) changed = absurd (changed code)

  -- A call that changes the code of the factory, after any calls on a factory without a pending
  -- proposal, installs a hash that a quorum of the signers has proposed in one of these calls, at
  -- least 51_840 ledgers before.
  pub code_changes_wait :
      (w w' : FactoryWorld W) (calls : List (Env × FactoryCall)) (env : Env) (call : FactoryCall)
      → w.store.pending_upgrade ≡ none
      → factory_step d env call (factory_run d calls w) ≡ ok w'
      → w'.store.wasm_hash ≢ (factory_run d calls w).store.wasm_hash
      → (at_ledger : ℕ) × IsProposed d w w'.store.wasm_hash at_ledger calls
        × (at_ledger + 51_840 ≤ env.sequence)
  code_changes_wait w w' calls env call h done changed =
      installed_hash w w' calls env call h (upgrade_step env call (factory_run d calls w) done)
        changed
