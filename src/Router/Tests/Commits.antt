-- ===== src/Router/Tests/Commits.antt =====
-- Witnesses of the theorems on the commits.
use coralswap_core.Router.Commits
use coralswap_core.Router.Paths
use coralswap_core.Router.Swaps
use coralswap_core.Prelude.{
  List, [], arith, refl, true, ℕ, ◌&&◌, ◌+◌, ◌<◌, ◌==◌, ◌||◌, ◌∷◌, ◌≡◌, ◌≢◌, ◌≤◌,
}
use coralswap_core.Env.{Env}
use coralswap_core.Host.{Crypto}
use coralswap_core.Host.Reading.{IsSelfDelimiting}
use coralswap_core.Int.{checked_add, checked_div, checked_mul, checked_sub, pos, quot, ℤ}
use coralswap_core.Outcome.{ok, ◌>>=◌}
use coralswap_core.Quote.{quote_input_amount, quote_output_amount}
use coralswap_core.Router.BestPath.{get_best_path}
use coralswap_core.Router.Binding.{swap_message_injective}
use coralswap_core.Router.Bounded.{IsBounded, router_run-IsBounded}
use coralswap_core.Router.Calls.{RouterCall, router_run, router_step}
use coralswap_core.Router.Commits.{
  commit_swap, compute_swap_hash, open_commit, reveal_swap, swap_message,
}
use coralswap_core.Router.Nonces.{reveal_once}
use coralswap_core.Router.Paths.{
  amounts_in, amounts_out, get_pair_address, get_pair_reserves_and_fee, get_path_amounts_out,
  get_path_minimums, minimums, sort_tokens,
}
use coralswap_core.Router.Reveals.{IsCommitted, reveal_needs_commit}
use coralswap_core.Router.RoundTrip.{commit_then_reveal}
use coralswap_core.Router.State.{RouterWorld}
use coralswap_core.Router.Steps.{after_reveal}
use coralswap_core.Router.Swaps.{check_deadline, execute_hops, swap_exact_tokens_multi_hop}
use coralswap_core.Router.Tests.{plain_network, router_at, some_router, some_router_store}

-- Addresses and messages stand for their own bytes, and every signature fits.
abbrev plain_crypto : Crypto
plain_crypto = record {
  to_xdr = λ a. a ∷ [];
  sha256 = λ bytes. bytes;
  ed25519_verify = λ key message signature. true;
}

abbrev committed_hash : List ℕ
committed_hash = compute_swap_hash plain_crypto 4 1 2 (pos 1_000) (pos 100) 5 (9 ∷ [])

abbrev committing : List (Env × RouterCall)
committing = (router_at 100, RouterCall.commit_swap 4 committed_hash) ∷ []

abbrev committed_router : RouterWorld ℕ
committed_router = record some_router {
  store = record some_router_store {
    commit = (4, record { hash = committed_hash; ledger = 100 }) ∷ [];
    commit_count = 1;
  };
}

some_router_store-IsBounded : IsBounded some_router_store
some_router_store-IsBounded = record {
  counted = refl;
  capped = omega arith;
  allowed = record {
    some_commits = omega arith;
    few_commits = omega arith;
    some_ledgers = omega arith;
    few_ledgers = omega arith;
  };
}

plain_crypto-IsSelfDelimiting : IsSelfDelimiting plain_crypto
plain_crypto-IsSelfDelimiting a b xs ys h = (cc, cc)

-- The router after a reveal of that commit.
abbrev revealed : ℤ × RouterWorld ℕ
revealed = (pos 1_992, record { store = after_reveal 4 5 committed_router.store; network = 3 })

abbrev some_sender : ℕ
some_sender = 4

abbrev token_one : ℕ
token_one = 1

abbrev token_two : ℕ
token_two = 2

abbrev some_nonce : ℕ
some_nonce = 5

abbrev some_salt : List ℕ
some_salt = 9 ∷ []

reveal_needs_commit_example :
    (ledger : ℕ) × IsCommitted 4
      (compute_swap_hash plain_crypto 4 1 2 (pos 1_000) (pos 100) 5 (9 ∷ []))
      ledger
      committing
    × (ledger < (router_at 102).sequence)
    × ((router_at 102).sequence
        ≤ ledger
          + (router_run plain_crypto plain_network committing
              some_router).store.commit_config.expiry_ledgers)
unfolding swap_message open_commit reveal_swap get_best_path router_step router_run
    Commits.commit_swap sort_tokens get_pair_address get_pair_reserves_and_fee Paths.get_amount_out
    Paths.get_amount_in quote_output_amount quote_input_amount checked_mul checked_add checked_sub
    checked_div quot check_deadline get_path_amounts_out get_path_minimums amounts_out minimums
    amounts_in execute_hops swap_exact_tokens_multi_hop Swaps.swap_tokens_for_exact_tokens
reveal_needs_commit_example =
    reveal_needs_commit plain_crypto plain_network some_router committing (router_at 102) 4 1 2
      (pos 1_000) (pos 100) 5 (9 ∷ []) refl refl

router_run-IsBounded_example :
    IsBounded (router_run plain_crypto plain_network committing some_router).store
router_run-IsBounded_example =
    router_run-IsBounded plain_crypto plain_network some_router committing
      some_router_store-IsBounded

reveal_once_example :
    reveal_swap plain_crypto plain_network
      (router_at 104)
      4
      1
      2
      (pos 1_000)
      (pos 100)
      5
      (9 ∷ [])
      (router_run plain_crypto plain_network committing revealed.1)
    ≢ ok revealed
unfolding swap_message open_commit reveal_swap get_best_path router_step router_run
    Commits.commit_swap sort_tokens get_pair_address get_pair_reserves_and_fee Paths.get_amount_out
    Paths.get_amount_in quote_output_amount quote_input_amount checked_mul checked_add checked_sub
    checked_div quot check_deadline get_path_amounts_out get_path_minimums amounts_out minimums
    amounts_in execute_hops swap_exact_tokens_multi_hop Swaps.swap_tokens_for_exact_tokens
reveal_once_example =
    reveal_once plain_crypto plain_network committed_router committing (router_at 102)
      (router_at 104) 4 1 2 1 2 (pos 1_000) (pos 100) (pos 1_000) (pos 100) 5 (9 ∷ []) (9 ∷ [])
      {r = revealed} {r' = revealed} refl

commit_then_reveal_example :
    (commit_swap
        (router_at 100)
        4
        (compute_swap_hash plain_crypto 4 1 2 (pos 1_000) (pos 100) 5 (9 ∷ []))
        some_router_store
      >>= λ t. open_commit plain_crypto (router_at 102) 4 1 2 (pos 1_000) (pos 100) 5 (9 ∷ []) t)
    ≡ ok (record some_router_store {
      nonce_used = λ c k. c == 4 && k == 5 || some_router_store.nonce_used c k;
    })
commit_then_reveal_example =
    commit_then_reveal plain_crypto (router_at 100) (router_at 102) 4 1 2 (pos 1_000) (pos 100) 5
      (9 ∷ []) some_router_store some_router_store-IsBounded refl refl (omega arith) refl
      (omega arith) (omega arith) (omega arith)

swap_message_injective_example :
    (some_sender ≡ 4)
    × (token_one ≡ 1)
    × (token_two ≡ 2)
    × ((pos 1_000) ≡ (pos 1_000))
    × ((pos 100) ≡ (pos 100))
    × (some_nonce ≡ 5)
    × (some_salt ≡ (9 ∷ []))
swap_message_injective_example =
    swap_message_injective plain_crypto some_sender 4 token_one 1 token_two 2 (pos 1_000)
      (pos 1_000) (pos 100) (pos 100) some_nonce 5 some_salt (9 ∷ []) plain_crypto-IsSelfDelimiting
      refl refl refl refl (omega arith) (omega arith) refl
