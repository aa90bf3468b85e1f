-- ===== src/Factory/Pairs.antt =====
-- The registry of the factory and what it relays to the pairs (contracts/factory/src/lib.rs).
use coralswap_core.Prelude.{
  Bool, List, [], false, if◌then◌else◌, length, ltb, none, not, some, true, ℕ, ◌++◌, ◌==◌, ◌||◌,
  ◌∷◌,
}
use coralswap_core.Env.{Address, Env}
use coralswap_core.Errors.{FactoryError}
use coralswap_core.Factory.Fees.{authorize_setter}
use coralswap_core.Factory.Governance.{verify_multisig}
use coralswap_core.Factory.State.{
  Deployed, FactoryStorage, FactoryStore, FactoryWorld, add_u32, get_factory_storage, is_pair, put,
  set_factory_storage,
}
use coralswap_core.LpToken.{is_some}
use coralswap_core.Outcome.{Outcome, ok, ok_or, raise_if, require, unwrap, ◌>>=◌, ◌>>◌}

abbrev pub protocol_version : ℕ
protocol_version = 1

unfoldable pub initialize :
    List Address → ℕ → ℕ → ℕ → Address → FactoryStore → Outcome FactoryError FactoryStore
initialize signers pair_wasm_hash concentrated_pair_wasm_hash lp_token_wasm_hash fee_to_setter s =
    do
      raise_if (is_some s.factory) FactoryError.already_initialized
      raise_if (length signers == 0 || ltb 10 (length signers)) FactoryError.invalid_signer_count
      ok (
          set_factory_storage
            (record {
              signers = signers;
              pair_wasm_hash = pair_wasm_hash;
              concentrated_pair_wasm_hash = concentrated_pair_wasm_hash;
              lp_token_wasm_hash = lp_token_wasm_hash;
              pair_count = 0;
              protocol_version = protocol_version;
              paused = false;
              fee_to = none;
              fee_to_setter = fee_to_setter;
              fee_bps = 0;
            })
            s)

-- `pause` and `unpause`.
unfoldable pub set_paused :
    Env → List Address → Bool → FactoryStore → Outcome FactoryError FactoryStore
unfolding verify_multisig
set_paused env signers paused s = do
  factory ← get_factory_storage s
  verify_multisig env factory.signers signers
  ok (set_factory_storage (record factory { paused = paused }) s)

-- The last part of `create_pair`: the entries of a new pair.
unfoldable pub register :
    Address
    → Address
    → Address
    → Address
    → FactoryStorage
    → FactoryStore
    → Outcome FactoryError FactoryStore
register token_0 token_1 pair lp_token factory s = do
  count ← unwrap (add_u32 factory.pair_count 1)
  let pair_list = s.pair_list ++ pair ∷ []
  let forward = put token_0 (put token_1 (some pair) (s.pair token_0)) s.pair
  ok (record s {
    factory = some (record factory { pair_count = count });
    pair = put token_1 (put token_0 (some pair) (forward token_1)) forward;
    pair_list = pair_list;
    total_pairs = length pair_list;
    pair_flag = put pair (some true) s.pair_flag;
    lp_token_flag = put lp_token true s.lp_token_flag;
  })

module _ {W : Type 0} (d : Deployed W) where
  -- With the tokens in order.
  abbrev pub create_sorted :
      Env → Address → Address → FactoryWorld W → Outcome FactoryError (Address × FactoryWorld W)
  create_sorted env token_0 token_1 w = do
    raise_if (is_some (w.store.pair token_0 token_1)) FactoryError.pair_exists
    factory ← get_factory_storage w.store
    raise_if factory.paused FactoryError.protocol_paused
    (pair, others_1) ←
        unwrap (d.deploy factory.pair_wasm_hash (d.pair_salt token_0 token_1) w.others)
    (lp_token, others_2) ← unwrap (d.deploy factory.lp_token_wasm_hash (d.lp_salt pair) others_1)
    others_3 ←
        ok_or (d.initialize_lp_token lp_token pair token_0 token_1 others_2)
          FactoryError.not_initialized
    others_4 ←
        ok_or (d.initialize_pair pair env.contract token_0 token_1 lp_token others_3)
          FactoryError.not_initialized
    store ← register token_0 token_1 pair lp_token factory w.store
    ok (pair, record { store = store; others = others_4 })

  unfoldable pub create_pair :
      Env → Address → Address → FactoryWorld W → Outcome FactoryError (Address × FactoryWorld W)
  unfolding register
  create_pair env token_a token_b w = do
    raise_if (token_a == token_b) FactoryError.identical_tokens
    if ltb token_a token_b
        then create_sorted env token_a token_b w
        else create_sorted env token_b token_a w

  abbrev pub set_pair_frozen_state :
      Address → Bool → FactoryWorld W → Outcome FactoryError (FactoryWorld W)
  set_pair_frozen_state pair frozen w = do
    raise_if (not (is_pair w.store pair)) FactoryError.pair_not_found
    others ← ok_or (d.set_frozen pair frozen w.others) FactoryError.pair_freeze_failed
    ok (record {
      store = record w.store { pair_frozen = put pair frozen w.store.pair_frozen };
      others = others;
    })

  -- The setter alone, or else a quorum.
  abbrev pub authorize_freeze :
      Env → List Address → FactoryStorage → Outcome FactoryError (Unit {0})
  authorize_freeze env [] factory = verify_multisig env factory.signers []
  authorize_freeze env (x ∷ []) factory =
      if x == factory.fee_to_setter
      then require (env.authorized x)
      else verify_multisig env factory.signers (x ∷ [])
  authorize_freeze env (x ∷ y ∷ signers) factory =
      verify_multisig env factory.signers (x ∷ y ∷ signers)

  unfoldable pub freeze_pair :
      Env → List Address → Address → FactoryWorld W → Outcome FactoryError (FactoryWorld W)
  unfolding verify_multisig
  freeze_pair env signers pair w = do
    factory ← get_factory_storage w.store
    authorize_freeze env signers factory
    raise_if (length signers == 0) FactoryError.unauthorized
    set_pair_frozen_state pair true w

  unfoldable pub unfreeze_pair :
      Env → List Address → Address → FactoryWorld W → Outcome FactoryError (FactoryWorld W)
  unfolding verify_multisig
  unfreeze_pair env signers pair w = do
    factory ← get_factory_storage w.store
    verify_multisig env factory.signers signers
    raise_if (length signers == 0) FactoryError.unauthorized
    set_pair_frozen_state pair false w

  -- The relays trap where the pair's call fails.
  unfoldable pub set_pair_lp_token_paused :
      Env → Address → Address → Bool → FactoryWorld W → Outcome FactoryError (FactoryWorld W)
  set_pair_lp_token_paused env setter pair paused w = do
    factory ← authorize_setter env setter w.store
    others ← unwrap (d.set_lp_token_paused pair paused w.others)
    ok (record w { others = others })

  unfoldable pub set_pair_stale_threshold :
      Env → Address → Address → ℕ → FactoryWorld W → Outcome FactoryError (FactoryWorld W)
  set_pair_stale_threshold env setter pair threshold w = do
    factory ← authorize_setter env setter w.store
    others ← unwrap (d.set_stale_threshold pair threshold w.others)
    ok (record w { others = others })
