-- ===== src/Router/Tests/Swaps.antt =====
-- Witnesses of the theorems on swaps, paths and deposits.
use coralswap_core.Router.Paths
use coralswap_core.Router.Swaps
use coralswap_core.Prelude.{List, [], arith, none, refl, some, true, ℕ, ◌↔◌, ◌∷◌, ◌≡◌, ◌≤◌, ◌⊎◌}
use coralswap_core.Env.{Address}
use coralswap_core.Int.{checked_add, checked_div, checked_mul, checked_sub, leb_ℤ, pos, quot, ℤ}
use coralswap_core.Outcome.{ok}
use coralswap_core.Quote.{quote_input_amount, quote_output_amount}
use coralswap_core.Router.BestLoops.{IsBestRoute, best_path_is_best}
use coralswap_core.Router.BestPath.{get_best_path}
use coralswap_core.Router.ExactOut.{IsExactOut, swap_charges_least}
use coralswap_core.Router.Liquidity.{add_liquidity}
use coralswap_core.Router.Minimums.{hop_checks_follow}
use coralswap_core.Router.Optimal.{IsFair, compute_optimal_amounts_lem}
use coralswap_core.Router.Order.{add_liquidity_either_order, exchange}
use coralswap_core.Router.Paths.{
  amounts_in, amounts_out, compute_optimal_amounts, get_pair_address, get_pair_reserves_and_fee,
  get_path_amounts_out, get_path_minimums, minimums, sort_tokens,
}
use coralswap_core.Router.State.{RouterWorld}
use coralswap_core.Router.Swaps.{
  check_deadline, execute_hops, last_or, reach, swap_exact_tokens_multi_hop,
}
use coralswap_core.Router.Tests.{plain_network, router_at, some_router}

abbrev via_hub : List Address
via_hub = 1 ∷ 3 ∷ 2 ∷ []

abbrev bought : List ℤ × RouterWorld ℕ
bought = (pos 101 ∷ [], record some_router { network = 4 })

abbrev matched : ℤ × ℤ
matched = (pos 10, pos 20)

swap_charges_least_example :
    IsExactOut plain_network
      (router_at 100)
      (pos 100)
      (pos 1_000)
      via_hub
      4
      50
      none
      some_router
      bought
unfolding sort_tokens get_pair_address get_pair_reserves_and_fee Paths.get_amount_out
    Paths.get_amount_in quote_output_amount quote_input_amount checked_mul checked_add checked_sub
    checked_div quot check_deadline get_path_amounts_out get_path_minimums amounts_out minimums
    amounts_in execute_hops swap_exact_tokens_multi_hop Swaps.swap_tokens_for_exact_tokens
swap_charges_least_example =
    swap_charges_least plain_network (router_at 100) (pos 100) (pos 1_000) via_hub 4 50 none
      some_router {r = bought} refl

best_path_is_best_example :
    (factory : Address) × (some_router.store.factory ≡ some factory)
    × IsBestRoute plain_network factory some_router.network some_router.store.hubs 1 2
        (pos 1_000)
        (record { path = (1 ∷ 2 ∷ []); out = (pos 1_992) })
unfolding get_best_path sort_tokens get_pair_address get_pair_reserves_and_fee Paths.get_amount_out
    Paths.get_amount_in quote_output_amount quote_input_amount checked_mul checked_add checked_sub
    checked_div quot check_deadline get_path_amounts_out get_path_minimums amounts_out minimums
    amounts_in execute_hops swap_exact_tokens_multi_hop Swaps.swap_tokens_for_exact_tokens
best_path_is_best_example =
    best_path_is_best plain_network 1 2 (pos 1_000) some_router {path = 1 ∷ 2 ∷ []}
      {out = pos 1_992} refl

hop_checks_follow_example :
    (leb_ℤ (pos 100) (last_or (pos 0) (pos 1_992 ∷ pos 992 ∷ [])) ≡ true)
    ↔ (reach (pos 1_992 ∷ pos 992 ∷ []) (pos 201 ∷ pos 100 ∷ []) ≡ ok tt)
unfolding sort_tokens get_pair_address get_pair_reserves_and_fee Paths.get_amount_out
    Paths.get_amount_in quote_output_amount quote_input_amount checked_mul checked_add checked_sub
    checked_div quot check_deadline get_path_amounts_out get_path_minimums amounts_out minimums
    amounts_in execute_hops swap_exact_tokens_multi_hop Swaps.swap_tokens_for_exact_tokens
hop_checks_follow_example =
    hop_checks_follow plain_network 7 0 via_hub (pos 1_000) (pos 100)
      {amounts = pos 1_992 ∷ pos 992 ∷ []} {mins = pos 201 ∷ pos 100 ∷ []} refl refl

add_liquidity_either_order_example :
    add_liquidity plain_network
      (router_at 100)
      1
      2
      (pos 40)
      (pos 30)
      (pos 2)
      (pos 1)
      4
      50
      none
      some_router
    ≡ exchange (
        add_liquidity plain_network
          (router_at 100)
          2
          1
          (pos 30)
          (pos 40)
          (pos 1)
          (pos 2)
          4
          50
          none
          some_router)
add_liquidity_either_order_example =
    add_liquidity_either_order plain_network (router_at 100) 2 1 (pos 30) (pos 40) (pos 1) (pos 2) 4
      50 none some_router

compute_optimal_amounts_lem_example :
    ((b : ℕ) × (matched ≡ (pos 10, pos b))
      × (b ≤ 100)
      × IsFair 10 b 1_000 2_000
      × (leb_ℤ (pos 5) (pos b) ≡ true))
    ⊎ ((a : ℕ) × (matched ≡ (pos a, pos 100))
        × (a ≤ 10)
        × IsFair 100 a 2_000 1_000
        × (leb_ℤ (pos 1) (pos a) ≡ true))
unfolding compute_optimal_amounts checked_mul checked_div quot
compute_optimal_amounts_lem_example =
    compute_optimal_amounts_lem 10 100 1_000 2_000 (pos 1) (pos 5) {o = matched} (omega arith)
      (omega arith) refl
