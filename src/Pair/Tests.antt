-- ===== src/Pair/Tests.antt =====
-- A pool for the tests: its tokens, its storage and its callers.
mod Trades
mod Deposits
use coralswap_core.Prelude.{
  Option, [], arith, false, if◌then◌else◌, none, some, ℕ, ◌&&◌, ◌==◌, ◌∷◌, ◌≢◌,
}
use coralswap_core.Env.{Address, Env}
use coralswap_core.Errors.{PairError}
use coralswap_core.Factory.State.{is_pair}
use coralswap_core.Int.{leb_ℤ, neg, pos, ℤ, ◌+ℤ◌}
use coralswap_core.LpToken.{LpToken, balance, blank, transfer}
use coralswap_core.Outcome.{Outcome, err, ok, trap}
use coralswap_core.Pair.Admin.{default_fee_state}
use coralswap_core.Pair.FeeCap.{IsFeeCapped}
use coralswap_core.Pair.Flash.{FlashCall}
use coralswap_core.Pair.State.{FactoryView, PairStorage, Store, TokenClient, World}

-- Pool tokens whose balances are a function, and whose transfers fail where the balance is short.
abbrev pub Ledger : Type 0
Ledger = Address → Address → ℤ

abbrev pub credit : Address → Address → ℤ → Ledger → Ledger
credit token who amount t = λ k a. if k == token && a == who then t k a +ℤ amount else t k a

abbrev pub plain_tokens : TokenClient Ledger
plain_tokens = record {
  balance = λ t token who. t token who;
  transfer = λ token from to amount t.
      if leb_ℤ amount (t token from)
      then some (credit token to amount (credit token from (neg amount) t))
      else none;
}

-- A borrower at address 3 who pays back what is due of the first token.
abbrev pub pays_back : FlashCall → LpToken × Ledger → Option (LpToken × Ledger)
pays_back c (lp, t) =
    elim (plain_tokens.transfer c.call_token_a 3 c.initiator (c.call_amount_a +ℤ c.call_fee_a) t) [
      | none ↦ none
      | some after ↦ some (lp, after)
    ]

-- The pair is 9, its factory 7, its LP token 8, and the pool tokens 20 and 21.
abbrev pub pool : PairStorage
pool = record {
  factory = 7;
  token_a = 20;
  token_b = 21;
  lp_token = 8;
  reserve_a = pos 100_000;
  reserve_b = pos 200_000;
  block_timestamp_last = 400;
  k_last = pos 20_000_000_000;
}

abbrev pub pool_store : Store
pool_store = record {
  pair_state = some pool;
  fee_state = some default_fee_state;
  locked = false;
  lp_token_paused = false;
  frozen = false;
  pending_lp = (4, pos 40_000) ∷ [];
  pending_lp_total = pos 40_000;
  protocol_fee_a = pos 0;
  protocol_fee_b = pos 0;
}

abbrev pub pool_lp : LpToken
pool_lp = record blank {
  admin = some 9;
  total_supply = pos 141_421;
  balances = (9, pos 41_000) ∷ (4, pos 100_421) ∷ [];
}

abbrev pub holdings : Ledger
holdings = λ token who.
    if token == 20 && who == 9
    then pos 101_000
    else if token == 21 && who == 9
    then pos 200_000
    else if who == 3
    then pos 5_000
    else pos 0

-- A trader has just sent 1_000 of the first token.
abbrev pub start : World Ledger
start = record { store = pool_store; lp = pool_lp; ledger = holdings }

abbrev pub by : Address → Env
by who = record { sequence = 60; timestamp = 500; authorized = λ a. a == who; contract = 9 }

abbrev pub factory_view : FactoryView
factory_view = record {
  fee_override = none;
  fee_to = some 30;
  fee_bps = some 10_000;
  is_pair = λ a. a == 9;
  is_lp_token = λ a. a == 8;
}

abbrev pub value_or : {A : Type 0} → A → Outcome PairError A → A
value_or d (ok a) = a
value_or d (err e) = d
value_or d trap = d

none_is_not_some : {rate : ℕ} → none ≢ some rate
none_is_not_some e = cc

pub factory_view-IsFeeCapped : IsFeeCapped factory_view default_fee_state
factory_view-IsFeeCapped = record {
  ordered_bounds = omega arith;
  dynamic_capped = omega arith;
  override_capped = λ rate e. absurd (none_is_not_some e);
}
