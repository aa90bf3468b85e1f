-- ===== src/Router/Swaps.antt =====
-- The swaps along a path (contracts/router/src/lib.rs).
use coralswap_core.Prelude.{
  List, Option, [], if◌then◌else◌, length, ltb, none, some, ℕ, ◌++◌, ◌==◌, ◌||◌, ◌∷◌,
}
use coralswap_core.Env.{Address, Env}
use coralswap_core.Errors.{RouterError}
use coralswap_core.Int.{leb_ℤ, ltb_ℤ, pos, ℤ}
use coralswap_core.Outcome.{Outcome, ok, ok_or, raise_if, require, unwrap, ◌>>=◌, ◌>>◌}
use coralswap_core.Router.Paths.{
  amounts_in, get_pair_address, get_path_amounts_out, get_path_minimums, sort_tokens,
}
use coralswap_core.Router.State.{Network, RouterWorld}

unfoldable pub check_deadline : Env → ℕ → Option ℕ → Outcome RouterError (Unit {0})
check_deadline env deadline deadline_ledger = do
  raise_if (ltb deadline env.timestamp) RouterError.expired
  elim deadline_ledger [
    | none ↦ ok tt
    | some limit ↦ raise_if (ltb limit env.sequence) RouterError.expired
  ]

-- `path.len() - 1` of an empty path underflows, a panic.
abbrev pub check_hops : List Address → Outcome RouterError (Unit {0})
check_hops path = do
  require (ltb 0 (length path))
  raise_if (length path == 1 || ltb 4 (length path)) RouterError.invalid_path

-- Whether each amount reaches its minimum, in the order of the loop.
abbrev pub reach : List ℤ → List ℤ → Outcome RouterError (Unit {0})
reach (a ∷ amounts) (m ∷ mins) = do
  raise_if (ltb_ℤ a m) RouterError.insufficient_output_amount
  reach amounts mins
reach amounts mins = ok tt

abbrev pub last_or : ℤ → List ℤ → ℤ
last_or d [] = d
last_or d (x ∷ xs) = last_or x xs

module _ {W : Type 0} (n : Network W) where
  -- `PairClient::swap` with the output on the side of `token_to`.
  abbrev pub swap_hop : Env → Address → Address → Address → ℤ → Address → W → Outcome RouterError W
  swap_hop env pair token_from token_to out dest w = do
    (token_0, token_1) ← sort_tokens token_from token_to
    unwrap (
        if token_from == token_0
        then n.swap env pair (pos 0) out dest w
        else n.swap env pair out (pos 0) dest w)

  -- The loop over the hops from one token on, with the amounts that they put out: the last hop pays
  -- `to`, the others pay the router, which forwards the amount to the next pair.
  unfoldable pub execute_hops :
      Address → Env → Address → Address → List Address → List ℤ → W → Outcome RouterError W
  unfolding get_pair_address sort_tokens
  execute_hops factory env to token_from (token_to ∷ []) (out ∷ outs) w = do
    pair ← get_pair_address n factory w token_from token_to
    swap_hop env pair token_from token_to out to w
  execute_hops factory env to token_from (token_to ∷ token_next ∷ path) (out ∷ outs) w = do
    pair ← get_pair_address n factory w token_from token_to
    w_1 ← swap_hop env pair token_from token_to out env.contract w
    next_pair ← get_pair_address n factory w_1 token_to token_next
    w_2 ← unwrap (n.token_transfer env token_to env.contract next_pair out w_1)
    execute_hops factory env to token_to (token_next ∷ path) outs w_2
  execute_hops factory env to token_from path outs w = ok w

  -- The user's input goes to the first pair.
  abbrev pub pay_first : Address → Env → Address → Address → Address → ℤ → W → Outcome RouterError W
  pay_first factory env to token_in token_next amount w = do
    first_pair ← get_pair_address n factory w token_in token_next
    unwrap (n.token_transfer env token_in to first_pair amount w)

  -- What the router holds of the input token goes back to the receiver.
  abbrev pub sweep_dust : Env → Address → Address → W → Outcome RouterError W
  sweep_dust env token_in to w =
      let dust = n.token_balance token_in env.contract w in
      if ltb_ℤ (pos 0) dust
      then unwrap (n.token_transfer env token_in env.contract to dust w)
      else ok w

  -- What `swap_exact_tokens_multi_hop` does once its amounts are settled, on a path of two tokens or
  -- more.
  abbrev pub run_exact_in :
      Address → Env → Address → List Address → ℤ → List ℤ → W → Outcome RouterError W
  run_exact_in factory env to (token_in ∷ token_next ∷ path) amount_in amounts w = do
    paid ← pay_first factory env to token_in token_next amount_in w
    swapped ← execute_hops factory env to token_in (token_next ∷ path) amounts paid
    sweep_dust env token_in to swapped
  run_exact_in factory env to path amount_in amounts w = ok w

  unfoldable pub swap_exact_tokens_multi_hop :
      Env
      → List Address
      → ℤ
      → ℤ
      → Address
      → ℕ
      → Option ℕ
      → RouterWorld W
      → Outcome RouterError (ℤ × RouterWorld W)
  unfolding check_deadline get_path_amounts_out get_path_minimums execute_hops
  swap_exact_tokens_multi_hop env path amount_in amount_out_min to deadline deadline_ledger w = do
    check_deadline env deadline deadline_ledger
    raise_if (leb_ℤ amount_in (pos 0)) RouterError.zero_amount
    check_hops path
    factory ← ok_or w.store.factory RouterError.pair_not_found
    amounts ← get_path_amounts_out n factory w.network path amount_in
    let final_out = last_or (pos 0) amounts
    raise_if (ltb_ℤ final_out amount_out_min) RouterError.insufficient_output_amount
    min_amounts ← get_path_minimums n factory w.network path amount_out_min
    reach amounts min_amounts
    require (env.authorized to)
    network ← run_exact_in factory env to path amount_in amounts w.network
    ok (final_out, record w { network = network })

  -- The source wraps the amount in a list of one.
  unfoldable pub swap_exact_tokens_for_tokens :
      Env
      → ℤ
      → ℤ
      → List Address
      → Address
      → ℕ
      → Option ℕ
      → RouterWorld W
      → Outcome RouterError (List ℤ × RouterWorld W)
  unfolding swap_exact_tokens_multi_hop
  swap_exact_tokens_for_tokens env amount_in amount_out_min path to deadline deadline_ledger w = do
    (final_out, w') ←
        swap_exact_tokens_multi_hop env path amount_in amount_out_min to deadline deadline_ledger w
    ok (final_out ∷ [], w')

  -- The inputs of the hops after the first, and the output of the last: what each hop puts out.
  abbrev pub outs_of : List ℤ → ℤ → List ℤ
  outs_of [] amount_out = amount_out ∷ []
  outs_of (r ∷ required) amount_out = required ++ amount_out ∷ []

  abbrev pub run_exact_out :
      Address → Env → Address → List Address → List ℤ → ℤ → ℤ → W → Outcome RouterError W
  run_exact_out factory env to (token_in ∷ token_next ∷ path) required amount_in_needed amount_out
        w =
      do
        paid ← pay_first factory env to token_in token_next amount_in_needed w
        execute_hops factory env to token_in (token_next ∷ path) (outs_of required amount_out) paid
  run_exact_out factory env to path required amount_in_needed amount_out w = ok w

  -- The walk backwards over the whole path.
  abbrev pub required_in : Address → W → List Address → ℤ → Outcome RouterError (List ℤ × ℤ)
  required_in factory w [] amount_out = ok ([], amount_out)
  required_in factory w (token_in ∷ path) amount_out =
      amounts_in n factory w token_in path amount_out

  unfoldable pub swap_tokens_for_exact_tokens :
      Env
      → ℤ
      → ℤ
      → List Address
      → Address
      → ℕ
      → Option ℕ
      → RouterWorld W
      → Outcome RouterError (List ℤ × RouterWorld W)
  unfolding check_deadline amounts_in execute_hops
  swap_tokens_for_exact_tokens env amount_out amount_in_max path to deadline deadline_ledger w = do
    check_deadline env deadline deadline_ledger
    raise_if (leb_ℤ amount_out (pos 0)) RouterError.zero_amount
    check_hops path
    factory ← ok_or w.store.factory RouterError.pair_not_found
    (required, amount_in_needed) ← required_in factory w.network path amount_out
    raise_if (ltb_ℤ amount_in_max amount_in_needed) RouterError.excessive_input_amount
    require (env.authorized to)
    network ← run_exact_out factory env to path required amount_in_needed amount_out w.network
    ok (amount_in_needed ∷ [], record w { network = network })
