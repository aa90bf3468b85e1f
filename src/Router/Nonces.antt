-- ===== src/Router/Nonces.antt =====
-- A nonce serves for one reveal.
use coralswap_core.Prelude.{
  ==_iff, Bool, List, ap, arith, min, refl, true, ℕ, ◌&&◌, ◌==◌, ◌||◌, ◌∙◌, ◌≡◌, ◌≢◌,
}
use coralswap_core.Env.{Address, Env}
use coralswap_core.Host.{Crypto}
use coralswap_core.Int.{ℤ}
use coralswap_core.Outcome.{ok}
use coralswap_core.Router.Calls.{RouterCall, router_run}
use coralswap_core.Router.Commits.{reveal_swap}
use coralswap_core.Router.Effects.{reveal_swap-store}
use coralswap_core.Router.History.{RouterStep}
use coralswap_core.Router.Runs.{router_run-keeps}
use coralswap_core.Router.State.{Network, RouterStore, RouterWorld}
use coralswap_core.Router.Steps.{after_reveal, open_commit-eq-ok}

or_kept : (b c : Bool) → c ≡ true → (b || c) ≡ true
or_kept b c h = ground arith

after_reveal-nonce :
    (sender : Address) (nonce : ℕ) (s : RouterStore)
    → (after_reveal sender nonce s).nonce_used sender nonce ≡ true
after_reveal-nonce sender nonce s =
    (rw ((==_iff sender sender).1 refl, (==_iff nonce nonce).1 refl) refl)

module _ {W : Type 0} (crypto : Crypto) (n : Network W) where
  step-nonce :
      (env : Env) (call : RouterCall) (s s' : RouterStore) (sender : Address) (nonce : ℕ)
      → RouterStep crypto env call s s'
      → s.nonce_used sender nonce ≡ true
      → s'.nonce_used sender nonce ≡ true
  step-nonce env call s s' sender nonce (RouterStep.same k) h =
      ap (λ f. f sender nonce) k.same_nonces ∙ h
  step-nonce env call s s' sender nonce (RouterStep.committed a hash is_call c) h =
      ap (λ f. f sender nonce) c.same_nonces ∙ h
  step-nonce env call s s' sender nonce (RouterStep.pruned a e has_one k) h =
      ap (λ (t : RouterStore). t.nonce_used sender nonce) k ∙ h
  step-nonce env call s s' sender nonce (RouterStep.revealed a _ _ x min k salt e opened eq) h =
      ap (λ (t : RouterStore). t.nonce_used sender nonce) eq
      ∙ or_kept (sender == a && nonce == k) _ h

  -- After a `reveal_swap` that succeeds, and any calls, no `reveal_swap` of the same sender with the
  -- same nonce succeeds, whatever its other arguments are.
  pub reveal_once :
      (w : RouterWorld W) (calls : List (Env × RouterCall)) (env env' : Env)
      (sender a b a' b' : Address) (x min x' min' : ℤ) (nonce : ℕ) (salt salt' : List ℕ)
      {r r' : ℤ × RouterWorld W}
      → reveal_swap crypto n env sender a b x min nonce salt w ≡ ok r
      → reveal_swap crypto n env' sender a' b' x' min' nonce salt' (router_run crypto n calls r.1)
        ≢ ok r'
  reveal_once w calls env env' sender a b a' b' x min x' min' nonce salt salt' {r} h k =
      let (e, first, left) =
        open_commit-eq-ok crypto env sender a b x min nonce salt w.store
          (reveal_swap-store n crypto env sender a b x min nonce salt w h) in
      let now = router_run crypto n calls r.1 in
      let (e', second, left') =
        open_commit-eq-ok crypto env' sender a' b' x' min' nonce salt' now.store
          (reveal_swap-store n crypto env' sender a' b' x' min' nonce salt' now k) in
      let used : r.1.store.nonce_used sender nonce ≡ true =
        ap (λ (t : RouterStore). t.nonce_used sender nonce) left
        ∙ after_reveal-nonce sender nonce w.store in
      let still =
        router_run-keeps crypto n r.1 (λ _ s. s.nonce_used sender nonce ≡ true)
          (λ env call earlier s'. step-nonce env call _ s' sender nonce) (λ c earlier s e. e) used
          calls in
      absurd (cc)
