-- ===== src/Router/Tests.antt =====
-- A router for the tests: its pairs, its tokens and its state.
mod Swaps
mod Commits
use coralswap_core.Prelude.{[], false, some, true, ℕ, ◌+◌, ◌∷◌}
use coralswap_core.Env.{Env}
use coralswap_core.Factory.State.{is_pair}
use coralswap_core.Int.{pos}
use coralswap_core.LpToken.{burn, mint}
use coralswap_core.Pair.Admin.{get_effective_fee_bps}
use coralswap_core.Pair.Burn.{deposit_lp}
use coralswap_core.Pair.Swap.{swap}
use coralswap_core.Router.State.{Network, RouterStore, RouterWorld, default_commit_config}

-- Every pair of tokens has a pair with the same reserves; the state counts the calls.
abbrev pub plain_network : Network ℕ
plain_network = record {
  get_pair = λ factory a b n. some (100 + a + b);
  is_pair = λ factory pair n. true;
  fee_to_setter = λ factory n. some 1;
  get_reserves = λ pair n. some (pos 1_000_000, pos 2_000_000);
  get_effective_fee_bps = λ pair n. some 30;
  swap = λ env pair out_0 out_1 to n. some (n + 1);
  mint = λ env pair to n. some (pos 5, n + 1);
  deposit_lp = λ env pair from amount n. some (n + 1);
  burn = λ env pair to n. some (pos 3, pos 4, n + 1);
  token_balance = λ token owner n. pos 10;
  token_transfer = λ env token from to amount n. some (n + 1);
}

abbrev pub router_at : ℕ → Env
router_at n = record { sequence = n; timestamp = 0; authorized = λ a. true; contract = 9 }

abbrev pub some_router_store : RouterStore
some_router_store = record {
  factory = some 7;
  hubs = 3 ∷ [];
  commit = [];
  nonce_used = λ a k. false;
  commit_count = 0;
  commit_config = default_commit_config;
}

abbrev pub some_router : RouterWorld ℕ
some_router = record { store = some_router_store; network = 0 }
