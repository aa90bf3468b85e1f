-- ===== src/Router/History.antt =====
-- How the calls of the router treat its commits.
use coralswap_core.Router.Admin
use coralswap_core.Prelude.{List, ap, inl, inr, max, min, refl, some, subst, sym, ℕ, ◌∙◌, ◌≡◌}
use coralswap_core.Env.{Address, Env}
use coralswap_core.Errors.{RouterError}
use coralswap_core.Host.{Crypto}
use coralswap_core.Int.{checked, ℤ}
use coralswap_core.Outcome.{Outcome, err, ok, ok-injective, trap, ◌>>=◌}
use coralswap_core.Router.Admin.{set_hubs}
use coralswap_core.Router.Calls.{RouterCall, on_store, router_step}
use coralswap_core.Router.Commits.{free_commit, prune_expired_commit, reveal_swap}
use coralswap_core.Router.Effects.{
  add_liquidity-store, exact_in_list-store, exact_out-store, remove_liquidity-store,
  reveal_swap-store, sweep-store,
}
use coralswap_core.Router.State.{CommitEntry, Network, RouterStore, RouterWorld, get_commit}
use coralswap_core.Router.Steps.{
  IsCommit, IsOpened, SameCommits, after_reveal, commit_swap-eq-ok, open_commit-eq-ok, prune-eq,
  set_commit_config-eq-ok,
}

pub data RouterStep (crypto : Crypto) (env : Env) (call : RouterCall) (s s' : RouterStore)
    : Type 0 where
  same : SameCommits s s' → RouterStep crypto env call s s'
  committed :
      (sender : Address) (hash : List ℕ)
      → call ≡ RouterCall.commit_swap sender hash
      → IsCommit env sender hash s s'
      → RouterStep crypto env call s s'
  pruned :
      (sender : Address) (e : CommitEntry)
      → get_commit sender s.commit ≡ some e
      → s' ≡ free_commit sender s
      → RouterStep crypto env call s s'
  revealed :
      (sender a b : Address) (x min : ℤ) (nonce : ℕ) (salt : List ℕ) (e : CommitEntry)
      → IsOpened crypto env sender a b x min nonce salt s e
      → s' ≡ after_reveal sender nonce s
      → RouterStep crypto env call s s'

module _ {W : Type 0} (crypto : Crypto) (n : Network W) where
  on_store-eq-ok :
      (o : Outcome RouterError RouterStore) (w : RouterWorld W) {w' : RouterWorld W}
      → on_store crypto n o w ≡ ok w'
      → o ≡ ok w'.store
  on_store-eq-ok (ok s) w h = cc
  on_store-eq-ok (err e) w h = cc
  on_store-eq-ok trap w h = cc

  same_store :
      (env : Env) (call : RouterCall) {s s' : RouterStore}
      → s' ≡ s
      → RouterStep crypto env call s s'
  same_store env call e = same (record {
    same_commit = ap (λ (t : RouterStore). t.commit) e;
    same_nonces = ap (λ (t : RouterStore). t.nonce_used) e;
    same_count = ap (λ (t : RouterStore). t.commit_count) e;
    config = inl (ap (λ (t : RouterStore). t.commit_config) e);
  })

  drop_value-eq-ok :
      {A : Type 0} (o : Outcome RouterError A) (f : A → RouterWorld W) {w' : RouterWorld W}
      → (o >>= λ r. ok (f r)) ≡ ok w'
      → (r : A) × (o ≡ ok r) × (f r ≡ w')
  drop_value-eq-ok (ok v) f h = (v, refl, ok-injective h)
  drop_value-eq-ok (err e) f h = cc
  drop_value-eq-ok trap f h = cc

  kept_value :
      {A : Type 0} (env : Env) (call : RouterCall) (o : Outcome RouterError A)
      (f : A → RouterWorld W) (w : RouterWorld W) {w' : RouterWorld W}
      → ((r : A) → o ≡ ok r → (f r).store ≡ w.store)
      → (o >>= λ r. ok (f r)) ≡ ok w'
      → RouterStep crypto env call w.store w'.store
  kept_value env call o f w keep h =
      let (r, e, k) = drop_value-eq-ok o f h in
      same_store env call (ap (λ (t : RouterWorld W). t.store) (sym k) ∙ keep r e)

  prune_step :
      (env : Env) (sender : Address) (w : RouterWorld W) {s' : RouterStore}
      → (prune_expired_commit env sender w.store).1 ≡ s'
      → RouterStep crypto env (RouterCall.prune_expired_commit sender) w.store s'
  prune_step env sender w k = elim (prune-eq env sender w.store) [
    | inl e ↦ same_store env _ (sym k ∙ e)
    | inr (c, has_one, e) ↦ pruned sender c has_one (sym k ∙ e)
  ]

  pub router_step-RouterStep :
      (env : Env) (call : RouterCall) (w : RouterWorld W) {w' : RouterWorld W}
      → router_step crypto n env call w ≡ ok w'
      → RouterStep crypto env call w.store w'.store
  unfolding router_step Admin.initialize set_hubs
  router_step-RouterStep env (RouterCall.initialize factory hubs) w h = same (
      subst (λ (t : RouterStore). SameCommits w.store t) (ok-injective (on_store-eq-ok _ w h))
        (record { same_commit = refl; same_nonces = refl; same_count = refl; config = inl refl }))
  router_step-RouterStep env (RouterCall.set_hubs hubs) w h = same (
      subst (λ (t : RouterStore). SameCommits w.store t) (ok-injective (on_store-eq-ok _ w h))
        (record { same_commit = refl; same_nonces = refl; same_count = refl; config = inl refl }))
  router_step-RouterStep env (RouterCall.sweep token recipient) w h =
      kept_value env _ _ _ w (λ r e. sweep-store n env token recipient w e) h
  router_step-RouterStep env (RouterCall.set_commit_config max_commits expiry) w h =
      same (set_commit_config-eq-ok n env max_commits expiry w h)
  router_step-RouterStep env (RouterCall.swap_exact_tokens_for_tokens x min path to d l) w h =
      kept_value env _ _ _ w (λ r e. exact_in_list-store n env x min path to d l w e) h
  router_step-RouterStep env (RouterCall.swap_tokens_for_exact_tokens x max path to d l) w h =
      kept_value env _ _ _ w (λ r e. exact_out-store n env x max path to d l w e) h
  router_step-RouterStep env (RouterCall.add_liquidity a b da db ma mb to d l) w h =
      kept_value env _ _ _ w (λ r e. add_liquidity-store n env a b da db ma mb to d l w e) h
  router_step-RouterStep env (RouterCall.remove_liquidity a b x ma mb to d l) w h =
      kept_value env _ _ _ w (λ r e. remove_liquidity-store n env a b x ma mb to d l w e) h
  router_step-RouterStep env (RouterCall.commit_swap sender hash) w h =
      committed sender hash refl (commit_swap-eq-ok env sender hash w.store (on_store-eq-ok _ w h))
  router_step-RouterStep env (RouterCall.prune_expired_commit sender) w h =
      prune_step env sender w (ok-injective (on_store-eq-ok _ w h))
  router_step-RouterStep env (RouterCall.reveal_swap sender a b x min nonce salt) w h =
      let (r, e, k) =
        drop_value-eq-ok (reveal_swap crypto n env sender a b x min nonce salt w) _ h in
      let opened = reveal_swap-store n crypto env sender a b x min nonce salt w e in
      let (c, checked, left) =
        open_commit-eq-ok crypto env sender a b x min nonce salt w.store opened in
      revealed sender a b x min nonce salt c checked
        (ap (λ (t : RouterWorld W). t.store) (sym k) ∙ left)
