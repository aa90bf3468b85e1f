-- ===== src/Factory/FeeRules.antt =====
-- The fee settings have one encoding for each state.
use coralswap_core.Factory.Pairs
use coralswap_core.Prelude.{
  Bool-cases, List, Option, [], ap, arith, if◌then◌else◌, inl, inr, ltb, none, some, subst, sym, ℕ,
  ◌<◌, ◌==◌, ◌∙◌, ◌∷◌, ◌≡◌, ◌≤◌,
}
use coralswap_core.Env.{Address, Env}
use coralswap_core.Factory.Calls.{FactoryCall, factory_run, factory_step, settled}
use coralswap_core.Factory.Effects.{set_fee_config-eq-ok, set_pair_fee-eq-ok}
use coralswap_core.Factory.Fees.{
  deposit_protocol_fee, set_fee_config, set_fee_to_setter, set_pair_fee,
}
use coralswap_core.Factory.Pairs.{
  create_pair, freeze_pair, register, set_pair_lp_token_paused, set_pair_stale_threshold,
  set_paused, unfreeze_pair,
}
use coralswap_core.Factory.State.{Deployed, FactoryStore, FactoryWorld, is_some, put}
use coralswap_core.Factory.Timelock.{on_store-eq-ok}
use coralswap_core.Factory.Upgrade.{cancel_upgrade, execute_upgrade, propose_upgrade}
use coralswap_core.Outcome.{Outcome-cases, ok}

-- `Factory::fee_to` and `Factory::fee_bps`.
unfoldable pub current_fee_to : FactoryStore → Option Address
current_fee_to s = elim s.factory [ none ↦ none | some f ↦ f.fee_to ]

unfoldable pub current_fee_bps : FactoryStore → ℕ
current_fee_bps s = elim s.factory [ none ↦ 0 | some f ↦ f.fee_bps ]

-- There is a recipient just where there is a rate, within its limit, and an override of the fee is
-- never zero nor above its limit.
pub record IsFeeConfig (s : FactoryStore) : Type 0 where
  pub recipient : is_some (current_fee_to s) ≡ ltb 0 (current_fee_bps s)
  pub rate : current_fee_bps s ≤ 30
  pub override_positive : (pair : Address) (n : ℕ) → s.pair_fee_override pair ≡ some n → 0 < n
  pub override_limit : (pair : Address) (n : ℕ) → s.pair_fee_override pair ≡ some n → n ≤ 100

SameFees : FactoryStore → FactoryStore → Type 0
SameFees s s' =
    (current_fee_to s' ≡ current_fee_to s)
    × (current_fee_bps s' ≡ current_fee_bps s)
    × (s'.pair_fee_override ≡ s.pair_fee_override)

kept : (s s' : FactoryStore) → SameFees s s' → IsFeeConfig s → IsFeeConfig s'
unfolding SameFees
kept s s' (to, bps, fees) c = record {
  recipient = let h = c.recipient in cc;
  rate = subst (λ n. n ≤ 30) (sym bps) c.rate;
  override_positive = λ pair n e.
      c.override_positive pair n (ap (λ (o : Address → Option ℕ). o pair) (sym fees) ∙ e);
  override_limit =
      λ pair n e. c.override_limit pair n (ap (λ (o : Address → Option ℕ). o pair) (sym fees) ∙ e);
}

set_fee_config-IsFeeConfig :
    (env : Env) (setter : Address) (to : Option Address) (bps : ℕ) (s : FactoryStore)
    {s' : FactoryStore}
    → set_fee_config env setter to bps s ≡ ok s'
    → IsFeeConfig s
    → IsFeeConfig s'
unfolding current_fee_to current_fee_bps
set_fee_config-IsFeeConfig env setter to bps s h c =
    let (f, at_f, authorized, low, recipient, e) = set_fee_config-eq-ok env setter to bps s h in
    subst (λ (t : FactoryStore). IsFeeConfig t) (sym e)
      (record {
        recipient = recipient;
        rate = low;
        override_positive = c.override_positive;
        override_limit = c.override_limit;
      })

-- The override that `set_pair_fee` writes.
written_override :
    (pair : Address) (bps : ℕ) (fees : Address → Option ℕ) (a : Address) (n : ℕ)
    → bps ≤ 100
    → put pair (if bps == 0 then none else some bps) fees a ≡ some n
    → (fees a ≡ some n → (0 < n) × (n ≤ 100))
    → (0 < n) × (n ≤ 100)
written_override pair bps fees a n low e old = elim (Bool-cases (a == pair)) [
  | inl here ↦ elim (Bool-cases (bps == 0)) [
    | inl cleared ↦ absurd (ground arith)
    | inr stored ↦ (ground arith, ground arith)
  ]
  | inr elsewhere ↦ old (ground arith)
]

set_pair_fee-IsFeeConfig :
    (env : Env) (setter pair : Address) (bps : ℕ) (s : FactoryStore) {s' : FactoryStore}
    → set_pair_fee env setter pair bps s ≡ ok s'
    → IsFeeConfig s
    → IsFeeConfig s'
unfolding current_fee_to current_fee_bps
set_pair_fee-IsFeeConfig env setter pair bps s h c =
    let (f, at_f, authorized, low, e) = set_pair_fee-eq-ok env setter pair bps s h in
    let rule =
      λ (a : Address) (n : ℕ)
          (k : put pair (if bps == 0 then none else some bps) s.pair_fee_override a ≡ some n).
        written_override pair bps s.pair_fee_override a n low k
          (λ old. (c.override_positive a n old, c.override_limit a n old)) in
    subst (λ (t : FactoryStore). IsFeeConfig t) (sym e)
      (record {
        recipient = c.recipient;
        rate = c.rate;
        override_positive = λ a n k. (rule a n k).0;
        override_limit = λ a n k. (rule a n k).1;
      })

initialize-IsFeeConfig :
    (signers : List Address) (p c l : ℕ) (setter : Address) (s : FactoryStore) {s' : FactoryStore}
    → Pairs.initialize signers p c l setter s ≡ ok s'
    → IsFeeConfig s
    → IsFeeConfig s'
unfolding Pairs.initialize current_fee_to current_fee_bps
initialize-IsFeeConfig signers p c l setter s {s'} h k =
    let fees : s'.pair_fee_override ≡ s.pair_fee_override = ground arith in
    let to : current_fee_to s' ≡ none = ground arith in
    let bps : current_fee_bps s' ≡ 0 = ground arith in
    record {
      recipient = cc;
      rate = subst (λ n. n ≤ 30) (sym bps) (omega arith);
      override_positive =
          λ a n e. k.override_positive a n (ap (λ (o : Address → Option ℕ). o a) (sym fees) ∙ e);
      override_limit =
          λ a n e. k.override_limit a n (ap (λ (o : Address → Option ℕ). o a) (sym fees) ∙ e);
    }

module _ {W : Type 0} (d : Deployed W) where
  -- Every other call leaves the fee settings.
  fee_step :
      (env : Env) (call : FactoryCall) (w : FactoryWorld W) {w' : FactoryWorld W}
      → factory_step d env call w ≡ ok w'
      → IsFeeConfig w.store
      → IsFeeConfig w'.store
  unfolding factory_step create_pair register set_paused freeze_pair unfreeze_pair set_fee_to_setter
      set_pair_lp_token_paused set_pair_stale_threshold deposit_protocol_fee propose_upgrade
      execute_upgrade cancel_upgrade SameFees current_fee_to current_fee_bps
  fee_step env (FactoryCall.initialize signers p c l setter) w h k =
      initialize-IsFeeConfig signers p c l setter w.store (on_store-eq-ok d _ w h) k
  fee_step env (FactoryCall.create_pair a b) w {w'} h k = kept w.store w'.store (ground arith) k
  fee_step env (FactoryCall.set_paused signers paused) w {w'} h k =
      kept w.store w'.store (ground arith) k
  fee_step env (FactoryCall.freeze_pair signers pair) w {w'} h k =
      kept w.store w'.store (ground arith) k
  fee_step env (FactoryCall.unfreeze_pair signers pair) w {w'} h k =
      kept w.store w'.store (ground arith) k
  fee_step env (FactoryCall.set_fee_config setter to bps) w h k =
      set_fee_config-IsFeeConfig env setter to bps w.store (on_store-eq-ok d _ w h) k
  fee_step env (FactoryCall.set_fee_to_setter setter new_setter) w {w'} h k =
      kept w.store w'.store (ground arith) k
  fee_step env (FactoryCall.set_pair_fee setter pair bps) w h k =
      set_pair_fee-IsFeeConfig env setter pair bps w.store (on_store-eq-ok d _ w h) k
  fee_step env (FactoryCall.set_pair_lp_token_paused setter pair paused) w {w'} h k =
      kept w.store w'.store (ground arith) k
  fee_step env (FactoryCall.set_pair_stale_threshold setter pair threshold) w {w'} h k =
      kept w.store w'.store (ground arith) k
  fee_step env (FactoryCall.deposit_protocol_fee pair token amount) w {w'} h k =
      kept w.store w'.store (ground arith) k
  fee_step env (FactoryCall.propose_upgrade signers hash) w {w'} h k =
      kept w.store w'.store (ground arith) k
  fee_step env (FactoryCall.execute_upgrade uploaded) w {w'} h k =
      kept w.store w'.store (ground arith) k
  fee_step env (FactoryCall.cancel_upgrade signers) w {w'} h k =
      kept w.store w'.store (ground arith) k

  settled-IsFeeConfig :
      (env : Env) (call : FactoryCall) (w : FactoryWorld W)
      → IsFeeConfig w.store
      → IsFeeConfig (settled d (factory_step d env call w) w).store
  settled-IsFeeConfig env call w k = elim (Outcome-cases (factory_step d env call w)) [
    | inl (w', e) ↦ subst (λ o. IsFeeConfig (settled d o w).store) (sym e) (fee_step env call w e k)
    | inr (inl (x, e)) ↦ subst (λ o. IsFeeConfig (settled d o w).store) (sym e) k
    | inr (inr e) ↦ subst (λ o. IsFeeConfig (settled d o w).store) (sym e) k
  ]

  -- Whatever calls the factory has seen, and whichever of them have failed, it has a fee recipient
  -- just where it has a rate, of at most 30, and every override of a pair's fee is from 1 to 100,
  -- if all this held at first.
  pub fee_config_is_kept :
      (w : FactoryWorld W) (calls : List (Env × FactoryCall))
      → IsFeeConfig w.store
      → IsFeeConfig (factory_run d calls w).store
  unfolding factory_run
  fee_config_is_kept w [] k = k
  fee_config_is_kept w ((env, call) ∷ earlier) k =
      settled-IsFeeConfig env call (factory_run d earlier w) (fee_config_is_kept w earlier k)
