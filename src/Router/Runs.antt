-- ===== src/Router/Runs.antt =====
-- Claims on every reachable storage of the router.
use coralswap_core.Prelude.{List, [], inl, inr, subst, sym, ◌∷◌}
use coralswap_core.Env.{Env}
use coralswap_core.Host.{Crypto}
use coralswap_core.Outcome.{Outcome-cases}
use coralswap_core.Router.Calls.{RouterCall, router_run, router_step, settled}
use coralswap_core.Router.History.{RouterStep, router_step-RouterStep}
use coralswap_core.Router.State.{Network, RouterStore, RouterWorld}

module _ {W : Type 0} (crypto : Crypto) (n : Network W) where
  -- What holds at the start, and is kept by each call that ends with a value, holds after any calls.
  pub router_run-keeps :
      (w : RouterWorld W) (P : List (Env × RouterCall) → RouterStore → Type 0)
      → ((env : Env) (call : RouterCall) (earlier : List (Env × RouterCall)) (s' : RouterStore)
          → RouterStep crypto env call (router_run crypto n earlier w).store s'
          → P earlier (router_run crypto n earlier w).store
          → P ((env, call) ∷ earlier) s')
      → ((c : Env × RouterCall) (earlier : List (Env × RouterCall)) (s : RouterStore)
          → P earlier s
          → P (c ∷ earlier) s)
      → P [] w.store
      → (calls : List (Env × RouterCall)) → P calls (router_run crypto n calls w).store
  unfolding router_run
  router_run-keeps w P keep skip start [] = start
  router_run-keeps w P keep skip start ((env, call) ∷ earlier) =
      let before = router_run crypto n earlier w in
      let ih = router_run-keeps w P keep skip start earlier in
      elim (Outcome-cases (router_step crypto n env call before)) [
        | inl (w', e) ↦
            subst (λ o. P ((env, call) ∷ earlier) (settled crypto n o before).store) (sym e)
              (keep env call earlier w'.store (router_step-RouterStep crypto n env call before e)
                ih)
        | inr (inl (x, e)) ↦
            subst (λ o. P ((env, call) ∷ earlier) (settled crypto n o before).store) (sym e)
              (skip (env, call) earlier before.store ih)
        | inr (inr e) ↦
            subst (λ o. P ((env, call) ∷ earlier) (settled crypto n o before).store) (sym e)
              (skip (env, call) earlier before.store ih)
      ]
