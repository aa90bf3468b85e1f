-- ===== src/Router/Reveals.antt =====
-- No reveal without a commit that its sender has made in an earlier ledger.
use coralswap_core.Prelude.{List, [], min, refl, subst, sym, true, ℕ, ◌+◌, ◌<◌, ◌∷◌, ◌≡◌, ◌≤◌}
use coralswap_core.Env.{Address, Env}
use coralswap_core.Host.{Crypto}
use coralswap_core.Int.{checked, ℤ}
use coralswap_core.Outcome.{ok}
use coralswap_core.Pair.Swap.{amount_in}
use coralswap_core.Router.Calls.{RouterCall, router_run}
use coralswap_core.Router.Commits.{compute_swap_hash, reveal_swap}
use coralswap_core.Router.Effects.{reveal_swap-store}
use coralswap_core.Router.History.{RouterStep}
use coralswap_core.Router.Runs.{router_run-keeps}
use coralswap_core.Router.Slots.{Every, Every-clear_commit, Every-get, Every-map, Every-set_commit}
use coralswap_core.Router.State.{CommitEntry, Network, RouterStore, RouterWorld}
use coralswap_core.Router.Steps.{not_expired-le, open_commit-eq-ok}

-- The histories of calls, the latest first, in which `sender` has authorized a commit to the hash at
-- the ledger.
pub data IsCommitted (sender : Address) (hash : List ℕ) (ledger : ℕ)
    : List (Env × RouterCall) → Type 0 where
  here :
      (env : Env) (earlier : List (Env × RouterCall))
      → env.sequence ≡ ledger
      → env.authorized sender ≡ true
      → IsCommitted sender hash ledger ((env, RouterCall.commit_swap sender hash) ∷ earlier)
  later :
      (c : Env × RouterCall) (earlier : List (Env × RouterCall))
      → IsCommitted sender hash ledger earlier
      → IsCommitted sender hash ledger (c ∷ earlier)

abbrev AllCommitted : List (Env × RouterCall) → RouterStore → Type 0
AllCommitted calls s = Every (λ a e. IsCommitted a e.hash e.ledger calls) s.commit

one_more :
    (c : Env × RouterCall) (earlier : List (Env × RouterCall)) (s : RouterStore)
    → AllCommitted earlier s
    → AllCommitted (c ∷ earlier) s
one_more c earlier s all = Every-map s.commit (λ a e. later c earlier) all

module _ {W : Type 0} (crypto : Crypto) (n : Network W) where
  step-AllCommitted :
      (env : Env) (call : RouterCall) (earlier : List (Env × RouterCall)) (s s' : RouterStore)
      → RouterStep crypto env call s s'
      → AllCommitted earlier s
      → AllCommitted ((env, call) ∷ earlier) s'
  step-AllCommitted env call earlier s s' (RouterStep.same k) all =
      subst (λ m. Every (λ a e. IsCommitted a e.hash e.ledger ((env, call) ∷ earlier)) m)
        (sym k.same_commit) (one_more (env, call) earlier s all)
  step-AllCommitted env call earlier s s' (RouterStep.committed sender hash is_call c) all =
      let P =
        λ (a : Address) (e : CommitEntry). IsCommitted a e.hash e.ledger ((env, call) ∷ earlier) in
      let e : CommitEntry = record { hash = hash; ledger = env.sequence } in
      let new : P sender e =
        subst (λ k. IsCommitted sender hash env.sequence ((env, k) ∷ earlier)) (sym is_call)
          (here env earlier refl c.authorized) in
      subst (λ m. Every P m) (sym c.stored)
        (Every-set_commit sender e s.commit new (one_more (env, call) earlier s all))
  step-AllCommitted env call earlier s s' (RouterStep.pruned sender e has_one k) all =
      subst (λ t. AllCommitted ((env, call) ∷ earlier) t) (sym k)
        (Every-clear_commit sender s.commit (one_more (env, call) earlier s all))
  step-AllCommitted env call earlier s s'
        (RouterStep.revealed sender a b x min nonce salt e opened k) all =
      subst (λ t. AllCommitted ((env, call) ∷ earlier) t) (sym k)
        (Every-clear_commit sender s.commit (one_more (env, call) earlier s all))

  run-AllCommitted :
      (w : RouterWorld W) (calls : List (Env × RouterCall))
      → w.store.commit ≡ []
      → AllCommitted calls (router_run crypto n calls w).store
  run-AllCommitted w calls h =
      router_run-keeps crypto n w AllCommitted
        (λ env call earlier s'. step-AllCommitted env call earlier _ s') one_more
        (subst (λ m. Every (λ a e. IsCommitted a e.hash e.ledger []) m) (sym h) Every.nobody) calls

  -- A `reveal_swap` that succeeds, after any calls on a router without commits, opens a commit that
  -- the sender has authorized by `commit_swap` in one of these calls: to the hash of the swap that
  -- is revealed, at an earlier ledger, which is not past the window of the configuration.
  pub reveal_needs_commit :
      (w : RouterWorld W) (calls : List (Env × RouterCall)) (env : Env) (sender a b : Address)
      (amount_in min_out : ℤ) (nonce : ℕ) (salt : List ℕ) {r : ℤ × RouterWorld W}
      → w.store.commit ≡ []
      → reveal_swap crypto n env sender a b amount_in min_out nonce salt
          (router_run crypto n calls w)
        ≡ ok r
      → (ledger : ℕ) × IsCommitted sender
          (compute_swap_hash crypto sender a b amount_in min_out nonce salt)
          ledger
          calls
        × (ledger < env.sequence)
        × (env.sequence ≤ ledger + (router_run crypto n calls w).store.commit_config.expiry_ledgers)
  reveal_needs_commit w calls env sender a b amount_in min_out nonce salt {r} h k =
      let now = router_run crypto n calls w in
      let opened = reveal_swap-store n crypto env sender a b amount_in min_out nonce salt now k in
      let (e, checked, left) =
        open_commit-eq-ok crypto env sender a b amount_in min_out nonce salt now.store opened in
      let made = Every-get sender now.store.commit (run-AllCommitted w calls h) checked.stored in
      (
        e.ledger,
        subst (λ hash. IsCommitted sender hash e.ledger calls) (sym checked.hashed) made,
        checked.later,
        not_expired-le env now.store e checked.in_time,
      )
