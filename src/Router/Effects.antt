-- ===== src/Router/Effects.antt =====
-- What the calls of the router do to its storage.
use coralswap_core.Prelude.{List, Option, ap, arith, max, min, none, sym, ℕ, ◌-◌, ◌^◌, ◌∙◌, ◌≡◌}
use coralswap_core.Env.{Address, Env}
use coralswap_core.Host.{Crypto}
use coralswap_core.Int.{ℤ}
use coralswap_core.Outcome.{>>=-then, ok, ok-injective}
use coralswap_core.Router.Admin.{sweep}
use coralswap_core.Router.BestPath.{get_best_path}
use coralswap_core.Router.Commits.{open_commit, reveal_swap}
use coralswap_core.Router.Liquidity.{add_liquidity, remove_liquidity}
use coralswap_core.Router.State.{Network, RouterStore, RouterWorld}
use coralswap_core.Router.Swaps.{
  swap_exact_tokens_for_tokens, swap_exact_tokens_multi_hop, swap_tokens_for_exact_tokens,
}

module _ {W : Type 0} (n : Network W) where
  pub sweep-store :
      (env : Env) (token recipient : Address) (w : RouterWorld W) {r : ℤ × RouterWorld W}
      → sweep n env token recipient w ≡ ok r
      → r.1.store ≡ w.store
  unfolding sweep
  sweep-store env token recipient w h = ground arith

  exact_in-store :
      (env : Env) (path : List Address) (x min : ℤ) (to : Address) (deadline : ℕ) (limit : Option ℕ)
      (w : RouterWorld W) {r : ℤ × RouterWorld W}
      → swap_exact_tokens_multi_hop n env path x min to deadline limit w ≡ ok r
      → r.1.store ≡ w.store
  unfolding swap_exact_tokens_multi_hop
  exact_in-store env path x min to deadline limit w h = ground arith

  pub exact_in_list-store :
      (env : Env) (x min : ℤ) (path : List Address) (to : Address) (deadline : ℕ) (limit : Option ℕ)
      (w : RouterWorld W) {r : List ℤ × RouterWorld W}
      → swap_exact_tokens_for_tokens n env x min path to deadline limit w ≡ ok r
      → r.1.store ≡ w.store
  unfolding swap_exact_tokens_for_tokens
  exact_in_list-store env x min path to deadline limit w h =
      >>=-then (swap_exact_tokens_multi_hop n env path x min to deadline limit w) _ h λ q e k.
        ap (λ (t : List ℤ × RouterWorld W). t.1.store) (sym (ok-injective k))
        ∙ exact_in-store env path x min to deadline limit w e

  pub exact_out-store :
      (env : Env) (y max : ℤ) (path : List Address) (to : Address) (deadline : ℕ) (limit : Option ℕ)
      (w : RouterWorld W) {r : List ℤ × RouterWorld W}
      → swap_tokens_for_exact_tokens n env y max path to deadline limit w ≡ ok r
      → r.1.store ≡ w.store
  unfolding swap_tokens_for_exact_tokens
  exact_out-store env y max path to deadline limit w h = ground arith

  pub add_liquidity-store :
      (env : Env) (a b : Address) (da db ma mb : ℤ) (to : Address) (deadline : ℕ) (limit : Option ℕ)
      (w : RouterWorld W) {r : ℤ × ℤ × ℤ × RouterWorld W}
      → add_liquidity n env a b da db ma mb to deadline limit w ≡ ok r
      → r.3.store ≡ w.store
  unfolding add_liquidity
  add_liquidity-store env a b da db ma mb to deadline limit w h = ground arith

  pub remove_liquidity-store :
      (env : Env) (a b : Address) (l ma mb : ℤ) (to : Address) (deadline : ℕ) (limit : Option ℕ)
      (w : RouterWorld W) {r : ℤ × ℤ × RouterWorld W}
      → remove_liquidity n env a b l ma mb to deadline limit w ≡ ok r
      → r.2.store ≡ w.store
  unfolding remove_liquidity
  remove_liquidity-store env a b l ma mb to deadline limit w h = ground arith

  -- A reveal leaves what opening the commit leaves.
  pub reveal_swap-store :
      (crypto : Crypto) (env : Env) (sender a b : Address) (x min : ℤ) (nonce : ℕ) (salt : List ℕ)
      (w : RouterWorld W) {r : ℤ × RouterWorld W}
      → reveal_swap crypto n env sender a b x min nonce salt w ≡ ok r
      → open_commit crypto env sender a b x min nonce salt w.store ≡ ok r.1.store
  unfolding reveal_swap
  reveal_swap-store crypto env sender a b x min nonce salt w h =
      >>=-then (open_commit crypto env sender a b x min nonce salt w.store) _ h λ s e h0.
        let opened = record w { store = s } in
        >>=-then (get_best_path n a b x opened) _ h0 λ best k h1.
          let kept = exact_in-store env best.0 x min sender (2 ^ 64 - 1) none opened h1 in
          e ∙ ap (λ (t : RouterStore). ok t) (sym kept)
