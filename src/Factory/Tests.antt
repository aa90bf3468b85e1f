-- ===== src/Factory/Tests.antt =====
-- Tests and witnesses of the factory.
use coralswap_core.Factory.Pairs
use coralswap_core.Factory.Upgrade
use coralswap_core.Prelude.{
  List, Option, [], arith, false, if◌then◌else◌, ltb, none, refl, some, true, ℕ, ◌*◌, ◌+◌, ◌==◌,
  ◌∷◌, ◌≡◌, ◌≤◌,
}
use coralswap_core.Env.{Address, Env}
use coralswap_core.Errors.{FactoryError}
use coralswap_core.Factory.Calls.{FactoryCall, factory_run, factory_step}
use coralswap_core.Factory.Derived.{IsDerived, derived_address_is_created}
use coralswap_core.Factory.FeeRules.{
  IsFeeConfig, current_fee_bps, current_fee_to, fee_config_is_kept,
}
use coralswap_core.Factory.Governance.{
  check_signers, quorum_threshold, require_all, verify_multisig,
}
use coralswap_core.Factory.Paging.{all_pages, pages_cover_list}
use coralswap_core.Factory.Pairs.{protocol_version}
use coralswap_core.Factory.Quorum.{two_quorums_meet}
use coralswap_core.Factory.Registry.{IsRegistered, create_pair_registers}
use coralswap_core.Factory.State.{Deployed, FactoryStorage, FactoryStore, FactoryWorld, mem, put}
use coralswap_core.Factory.Timelock.{IsProposed, code_changes_wait}
use coralswap_core.Factory.Views.{get_pair_address}
use coralswap_core.Int.{pos}
use coralswap_core.Outcome.{err, ok}

abbrev three_signers : List Address
three_signers = 1 ∷ 2 ∷ 3 ∷ []

abbrev at_ledger_of : ℕ → Env
at_ledger_of n = record { sequence = n; timestamp = 0; authorized = λ a. true; contract = 9 }

abbrev some_factory : FactoryStorage
some_factory = record {
  signers = three_signers;
  pair_wasm_hash = 50;
  concentrated_pair_wasm_hash = 51;
  lp_token_wasm_hash = 52;
  pair_count = 0;
  protocol_version = 1;
  paused = false;
  fee_to = none;
  fee_to_setter = 1;
  fee_bps = 0;
}

abbrev some_store : FactoryStore
some_store = record {
  factory = some some_factory;
  pair = λ a b. none;
  pending_upgrade = none;
  pair_list = [];
  pair_fee_override = λ a. none;
  total_pairs = 0;
  pair_frozen = λ a. false;
  pair_flag = λ a. none;
  lp_token_flag = λ a. false;
  protocol_fee_balance = λ a. pos 0;
  wasm_hash = 40;
}

-- Addresses are handed out in order, and the contracts accept every call.
abbrev plain_deployed : Deployed ℕ
plain_deployed = record {
  pair_salt = λ a b. a * 100 + b;
  lp_salt = λ a. a;
  deploy = λ hash salt n. some (n, n + 1);
  initialize_lp_token = λ token pair a b n. some n;
  initialize_pair = λ pair factory a b token n. some n;
  set_frozen = λ pair frozen n. some n;
  set_lp_token_paused = λ pair paused n. some n;
  set_stale_threshold = λ pair threshold n. some n;
}

abbrev some_world : FactoryWorld ℕ
some_world = record { store = some_store; others = 1_000 }

abbrev upgraded_world : FactoryWorld ℕ
upgraded_world = record some_world {
  store = record some_store {
    factory = some (record some_factory { protocol_version = 2 });
    wasm_hash = 77;
  };
}

abbrev proposal : List (Env × FactoryCall)
proposal = (at_ledger_of 100, FactoryCall.propose_upgrade (1 ∷ 2 ∷ []) 77) ∷ []

abbrev forward : Address → Address → Option Address
forward = put 3 (put 5 (some 1_000) (some_store.pair 3)) some_store.pair

abbrev created_world : FactoryWorld ℕ
created_world = record {
  store = record some_store {
    factory = some (record some_factory { pair_count = 1 });
    pair = put 5 (put 3 (some 1_000) (forward 5)) forward;
    pair_list = 1_000 ∷ [];
    total_pairs = 1;
    pair_flag = put 1_000 (some true) some_store.pair_flag;
    lp_token_flag = put 1_001 true some_store.lp_token_flag;
  };
  others = 1_002;
}

some_store-IsFeeConfig : IsFeeConfig some_store
unfolding current_fee_to current_fee_bps
some_store-IsFeeConfig = record {
  recipient = refl;
  rate = omega arith;
  override_positive = λ pair n e. absurd (ground arith);
  override_limit = λ pair n e. absurd (ground arith);
}

-- A quorum counts no signer twice.
no_padding :
    verify_multisig (at_ledger_of 100) three_signers (1 ∷ 1 ∷ [])
    ≡ err FactoryError.duplicate_signer
unfolding verify_multisig check_signers require_all quorum_threshold
no_padding = refl

two_quorums_meet_example :
    (a : Address) × (mem a three_signers ≡ true)
    × (mem a (1 ∷ 2 ∷ []) ≡ true)
    × (mem a (3 ∷ 2 ∷ []) ≡ true)
    × ((at_ledger_of 100).authorized a ≡ true)
    × ((at_ledger_of 200).authorized a ≡ true)
unfolding verify_multisig check_signers require_all quorum_threshold
two_quorums_meet_example =
    two_quorums_meet (at_ledger_of 100) (at_ledger_of 200) three_signers (1 ∷ 2 ∷ []) (3 ∷ 2 ∷ [])
      refl refl

code_changes_wait_example :
    (at_ledger : ℕ) × IsProposed plain_deployed some_world upgraded_world.store.wasm_hash at_ledger
      proposal
    × (at_ledger + 51_840 ≤ (at_ledger_of 52_000).sequence)
unfolding factory_step factory_run Upgrade.propose_upgrade Upgrade.execute_upgrade verify_multisig
    check_signers require_all quorum_threshold
code_changes_wait_example =
    code_changes_wait plain_deployed some_world upgraded_world proposal (at_ledger_of 52_000)
      (FactoryCall.execute_upgrade (λ h. true)) refl refl (λ e. omega arith)

fee_config_is_kept_example : IsFeeConfig (factory_run plain_deployed proposal some_world).store
fee_config_is_kept_example =
    fee_config_is_kept plain_deployed some_world proposal some_store-IsFeeConfig

create_pair_registers_example :
    ((5 == 3) ≡ false)
    × ((if ltb 5 3 then some_world.store.pair 5 3 else some_world.store.pair 3 5) ≡ none)
    × (f : FactoryStorage) × (some_world.store.factory ≡ some f)
    × (f.paused ≡ false)
    × (created_world.store.factory ≡ some (record f { pair_count = f.pair_count + 1 }))
    × IsRegistered 5 3 1_000 some_world.store created_world.store
unfolding Pairs.create_pair Pairs.register
create_pair_registers_example =
    create_pair_registers plain_deployed (at_ledger_of 100) 5 3 some_world {pair = 1_000}
      {w' = created_world} refl

abbrev listed_store : FactoryStore
listed_store = record some_store { pair_list = 11 ∷ 12 ∷ 13 ∷ [] }

pages_cover_list_example : all_pages 2 2 listed_store ≡ ok listed_store.pair_list
pages_cover_list_example =
    pages_cover_list 2 2 listed_store (omega arith) (omega arith) (omega arith)

-- A host that derives every address from its salt.
abbrev derived_deployed : Deployed ℕ
derived_deployed = record plain_deployed { deploy = λ hash salt n. some (1_000 + salt, n + 1) }

abbrev address_of_salt : ℕ → Address
address_of_salt salt = 1_000 + salt

derived_deployed-IsDerived : IsDerived derived_deployed address_of_salt
derived_deployed-IsDerived hash salt v r h = ground arith

abbrev derived_forward : Address → Address → Option Address
derived_forward = put 3 (put 5 (some 1_305) (some_store.pair 3)) some_store.pair

abbrev derived_world : FactoryWorld ℕ
derived_world = record {
  store = record some_store {
    factory = some (record some_factory { pair_count = 1 });
    pair = put 5 (put 3 (some 1_305) (derived_forward 5)) derived_forward;
    pair_list = 1_305 ∷ [];
    total_pairs = 1;
    pair_flag = put 1_305 (some true) some_store.pair_flag;
    lp_token_flag = put 2_305 true some_store.lp_token_flag;
  };
  others = 1_002;
}

derived_address_is_created_example :
    (get_pair_address derived_deployed address_of_salt 5 3 ≡ ok 1_305)
    × (get_pair_address derived_deployed address_of_salt 3 5 ≡ ok 1_305)
    × (derived_world.store.pair 5 3 ≡ some 1_305)
unfolding Pairs.create_pair Pairs.register
derived_address_is_created_example =
    derived_address_is_created derived_deployed address_of_salt (at_ledger_of 100) 5 3 some_world
      {pair = 1_305} {w' = derived_world} derived_deployed-IsDerived refl
