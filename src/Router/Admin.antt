-- ===== src/Router/Admin.antt =====
-- The settings of the router, and the sweep of its balances (contracts/router/src/lib.rs).
use coralswap_core.Prelude.{List, ltb, some, ℕ, ◌==◌, ◌||◌}
use coralswap_core.Env.{Address, Env}
use coralswap_core.Errors.{RouterError}
use coralswap_core.Int.{leb_ℤ, pos, ℤ}
use coralswap_core.Outcome.{Outcome, ok, ok_or, raise_if, require, unwrap, ◌>>=◌, ◌>>◌}
use coralswap_core.Router.Commits.{commit_expiry_hard_cap, max_commits_hard_cap}
use coralswap_core.Router.State.{Network, RouterStore, RouterWorld}

-- Nobody has to authorize it, at any time.
unfoldable pub initialize : Address → List Address → RouterStore → RouterStore
initialize factory hubs s = record s { factory = some factory; hubs = hubs }

unfoldable pub set_hubs : List Address → RouterStore → RouterStore
set_hubs hubs s = record s { hubs = hubs }

module _ {W : Type 0} (n : Network W) where
  -- What the calls of the governance begin with.
  abbrev pub authorize_governance : Env → RouterWorld W → Outcome RouterError (Unit {0})
  authorize_governance env w = do
    factory ← ok_or w.store.factory RouterError.pair_not_found
    governance ← ok_or (n.fee_to_setter factory w.network) RouterError.internal_error
    require (env.authorized governance)

  unfoldable pub sweep :
      Env → Address → Address → RouterWorld W → Outcome RouterError (ℤ × RouterWorld W)
  sweep env token recipient w = do
    authorize_governance env w
    let amount = n.token_balance token env.contract w.network
    raise_if (leb_ℤ amount (pos 0)) RouterError.zero_amount
    network ← unwrap (n.token_transfer env token env.contract recipient amount w.network)
    ok (amount, record w { network = network })

  unfoldable pub set_commit_config :
      Env → ℕ → ℕ → RouterWorld W → Outcome RouterError (RouterWorld W)
  set_commit_config env max_commits expiry_ledgers w = do
    authorize_governance env w
    raise_if
        (max_commits == 0
          || ltb max_commits_hard_cap max_commits
          || expiry_ledgers == 0
          || ltb commit_expiry_hard_cap expiry_ledgers)
        RouterError.invalid_commit_config
    ok (record w {
      store = record w.store {
        commit_config = record { max_commits = max_commits; expiry_ledgers = expiry_ledgers };
      };
    })
