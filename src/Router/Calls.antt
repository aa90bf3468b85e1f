-- ===== src/Router/Calls.antt =====
-- The calls of the router that change state, one by one and in sequence.
use coralswap_core.Router.Admin
use coralswap_core.Router.Commits
use coralswap_core.Router.Liquidity
use coralswap_core.Router.Swaps
use coralswap_core.Prelude.{List, Option, [], max, min, ℕ, ◌∷◌}
use coralswap_core.Env.{Address, Env}
use coralswap_core.Errors.{RouterError}
use coralswap_core.Host.{Crypto}
use coralswap_core.Int.{ℤ}
use coralswap_core.Outcome.{Outcome, err, ok, trap, ◌>>=◌}
use coralswap_core.Router.State.{Network, RouterStore, RouterWorld}

pub data RouterCall : Type 0 where
  initialize : Address → List Address → RouterCall
  set_hubs : List Address → RouterCall
  sweep : Address → Address → RouterCall
  set_commit_config : ℕ → ℕ → RouterCall
  swap_exact_tokens_for_tokens : ℤ → ℤ → List Address → Address → ℕ → Option ℕ → RouterCall
  swap_tokens_for_exact_tokens : ℤ → ℤ → List Address → Address → ℕ → Option ℕ → RouterCall
  add_liquidity : Address → Address → ℤ → ℤ → ℤ → ℤ → Address → ℕ → Option ℕ → RouterCall
  remove_liquidity : Address → Address → ℤ → ℤ → ℤ → Address → ℕ → Option ℕ → RouterCall
  commit_swap : Address → List ℕ → RouterCall
  prune_expired_commit : Address → RouterCall
  reveal_swap : Address → Address → Address → ℤ → ℤ → ℕ → List ℕ → RouterCall

module _ {W : Type 0} (crypto : Crypto) (n : Network W) where
  -- A call that reads and writes the router's own storage only.
  abbrev pub on_store :
      Outcome RouterError RouterStore → RouterWorld W → Outcome RouterError (RouterWorld W)
  on_store (ok s) w = ok (record w { store = s })
  on_store (err e) w = err e
  on_store trap w = trap

  unfoldable pub router_step :
      Env → RouterCall → RouterWorld W → Outcome RouterError (RouterWorld W)
  router_step env (RouterCall.initialize factory hubs) w =
      on_store (ok (Admin.initialize factory hubs w.store)) w
  router_step env (RouterCall.set_hubs hubs) w = on_store (ok (Admin.set_hubs hubs w.store)) w
  router_step env (RouterCall.sweep token recipient) w =
      Admin.sweep n env token recipient w >>= λ r. ok r.1
  router_step env (RouterCall.set_commit_config max_commits expiry_ledgers) w =
      Admin.set_commit_config n env max_commits expiry_ledgers w
  router_step env (RouterCall.swap_exact_tokens_for_tokens amount_in min path to deadline limit) w =
      Swaps.swap_exact_tokens_for_tokens n env amount_in min path to deadline limit w >>= λ r.
      ok r.1
  router_step env (RouterCall.swap_tokens_for_exact_tokens amount_out max path to deadline limit)
        w =
      Swaps.swap_tokens_for_exact_tokens n env amount_out max path to deadline limit w >>= λ r.
      ok r.1
  router_step env (RouterCall.add_liquidity a b da db ma mb to deadline limit) w =
      Liquidity.add_liquidity n env a b da db ma mb to deadline limit w >>= λ r. ok r.3
  router_step env (RouterCall.remove_liquidity a b liquidity ma mb to deadline limit) w =
      Liquidity.remove_liquidity n env a b liquidity ma mb to deadline limit w >>= λ r. ok r.2
  router_step env (RouterCall.commit_swap sender hash) w =
      on_store (Commits.commit_swap env sender hash w.store) w
  router_step env (RouterCall.prune_expired_commit sender) w =
      on_store (ok (Commits.prune_expired_commit env sender w.store).1) w
  router_step env (RouterCall.reveal_swap sender a b amount_in min nonce salt) w =
      Commits.reveal_swap crypto n env sender a b amount_in min nonce salt w >>= λ r. ok r.1

  -- The host drops what a failing call has written.
  abbrev pub settled : Outcome RouterError (RouterWorld W) → RouterWorld W → RouterWorld W
  settled (ok w') w = w'
  settled (err e) w = w
  settled trap w = w

  -- The latest call stands first.
  unfoldable pub router_run : List (Env × RouterCall) → RouterWorld W → RouterWorld W
  unfolding router_step
  router_run [] w = w
  router_run ((env, call) ∷ earlier) w =
      let before = router_run earlier w in settled (router_step env call before) before
