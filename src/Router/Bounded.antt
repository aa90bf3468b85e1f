-- ===== src/Router/Bounded.antt =====
-- The bound on the commits that are open at once.
use coralswap_core.Prelude.{
  List, ap, arith, inl, inr, length, min, some, subst, sym, ℕ, ◌∙◌, ◌≡◌, ◌≤◌, ◌⊎◌,
}
use coralswap_core.Env.{Address, Env}
use coralswap_core.Host.{Crypto}
use coralswap_core.Router.Calls.{RouterCall, router_run}
use coralswap_core.Router.Commits.{free_commit}
use coralswap_core.Router.History.{RouterStep}
use coralswap_core.Router.Runs.{router_run-keeps}
use coralswap_core.Router.Slots.{length-clear_commit, length-set_commit-new, length-set_commit-old}
use coralswap_core.Router.State.{CommitEntry, Network, RouterStore, RouterWorld, get_commit}
use coralswap_core.Router.Steps.{IsAllowed, IsCommit}

pub record IsBounded (s : RouterStore) : Type 0 where
  pub counted : s.commit_count ≡ length s.commit
  pub capped : s.commit_count ≤ 1_000
  pub allowed : IsAllowed s.commit_config

step-IsAllowed :
    (s s' : RouterStore)
    → (s'.commit_config ≡ s.commit_config) ⊎ IsAllowed s'.commit_config
    → IsAllowed s.commit_config
    → IsAllowed s'.commit_config
step-IsAllowed s s' (inl e) a = subst (λ c. IsAllowed c) (sym e) a
step-IsAllowed s s' (inr a) _ = a

commit-IsBounded :
    (env : Env) (sender : Address) (hash : List ℕ) (s s' : RouterStore)
    → IsCommit env sender hash s s'
    → IsBounded s
    → IsBounded s'
commit-IsBounded env sender hash s s' c b =
    let e : CommitEntry = record { hash = hash; ledger = env.sequence } in
    let size = ap length c.stored in
    let allowed = subst (λ k. IsAllowed k) (sym c.same_config) b.allowed in
    let capped = b.capped in
    let few = b.allowed.few_commits in
    let counted = b.counted in
    elim c.slot [
      | inl (none_yet, room, count) ↦
          let longer = length-set_commit-new sender e s.commit none_yet in
          record { counted = ground arith; capped = ground arith; allowed = allowed }
      | inr (old, has_one, count) ↦
          let same = length-set_commit-old sender e s.commit has_one in
          record { counted = ground arith; capped = ground arith; allowed = allowed }
    ]

free-IsBounded :
    (sender : Address) (s : RouterStore) {e : CommitEntry}
    → get_commit sender s.commit ≡ some e
    → IsBounded s
    → IsBounded (free_commit sender s)
free-IsBounded sender s has_one b =
    let shorter = length-clear_commit sender s.commit has_one in
    let counted = b.counted in
    let capped = b.capped in
    record { counted = omega arith; capped = omega arith; allowed = b.allowed }

step-IsBounded :
    (crypto : Crypto) (env : Env) (call : RouterCall) (s s' : RouterStore)
    → RouterStep crypto env call s s'
    → IsBounded s
    → IsBounded s'
step-IsBounded crypto env call s s' (RouterStep.same k) b = record {
  counted = k.same_count ∙ b.counted ∙ ap length (sym k.same_commit);
  capped = ground arith;
  allowed = step-IsAllowed s s' k.config b.allowed;
}
step-IsBounded crypto env call s s' (RouterStep.committed sender hash _ c) b =
    commit-IsBounded env sender hash s s' c b
step-IsBounded crypto env call s s' (RouterStep.pruned sender e has_one k) b =
    subst IsBounded (sym k) (free-IsBounded sender s has_one b)
step-IsBounded crypto env call s s' (RouterStep.revealed sender a b x min nonce salt e opened k)
      bounded =
    let freed = free-IsBounded sender s opened.stored bounded in
    subst IsBounded (sym k)
      (record { counted = freed.counted; capped = freed.capped; allowed = freed.allowed })

-- If the counter of open commits agrees with the commits in store, is at most 1_000, and the
-- configuration is one that `set_commit_config` takes, then this is so after any calls: the counter
-- never drifts, and there are never more than 1_000 open commits.
pub router_run-IsBounded :
    {W : Type 0} (crypto : Crypto) (n : Network W) (w : RouterWorld W)
    (calls : List (Env × RouterCall))
    → IsBounded w.store
    → IsBounded (router_run crypto n calls w).store
router_run-IsBounded crypto n w calls b =
    router_run-keeps crypto n w (λ _ s. IsBounded s)
      (λ env call earlier s' k. step-IsBounded crypto env call _ s' k) (λ c earlier s k. k) b calls
