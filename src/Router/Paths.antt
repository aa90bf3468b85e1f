-- ===== src/Router/Paths.antt =====
-- Quotes for one pair and along a path (contracts/router/src/helpers.rs).
use coralswap_core.Prelude.{List, [], if◌then◌else◌, ltb, not, ℕ, ◌&&◌, ◌==◌, ◌||◌, ◌∷◌}
use coralswap_core.Env.{Address}
use coralswap_core.Errors.{RouterError}
use coralswap_core.Int.{checked_div, checked_mul, eq_ℤ, leb_ℤ, ltb_ℤ, pos, quot, ℤ}
use coralswap_core.LpToken.{is_some}
use coralswap_core.Outcome.{Outcome, err, map_err, ok, ok_or, raise_if, unwrap, ◌>>=◌, ◌>>◌}
use coralswap_core.Quote.{QuoteError, quote_input_amount, quote_output_amount}
use coralswap_core.Router.State.{Network}

abbrev pub map_quote_error : QuoteError → RouterError
map_quote_error QuoteError.zero_amount = RouterError.zero_amount
map_quote_error QuoteError.dust = RouterError.dust_amount
map_quote_error QuoteError.insufficient_liquidity = RouterError.insufficient_liquidity
map_quote_error QuoteError.overflow = RouterError.insufficient_liquidity
map_quote_error QuoteError.invalid_fee = RouterError.insufficient_liquidity

unfoldable pub get_amount_out : ℤ → ℤ → ℤ → ℕ → Outcome RouterError ℤ
get_amount_out amount_in reserve_in reserve_out fee_bps =
    map_err map_quote_error (quote_output_amount amount_in reserve_in reserve_out fee_bps)

unfoldable pub get_amount_in : ℤ → ℤ → ℤ → ℕ → Outcome RouterError ℤ
get_amount_in amount_out reserve_in reserve_out fee_bps =
    map_err map_quote_error (quote_input_amount amount_out reserve_in reserve_out fee_bps)

unfoldable pub quote : ℤ → ℤ → ℤ → Outcome RouterError ℤ
unfolding checked_mul quot
quote amount_a reserve_a reserve_b = do
  raise_if (leb_ℤ amount_a (pos 0)) RouterError.zero_amount
  raise_if (leb_ℤ reserve_a (pos 0) || leb_ℤ reserve_b (pos 0)) RouterError.insufficient_liquidity
  product ← ok_or (checked_mul amount_a reserve_b) RouterError.insufficient_liquidity
  ok (quot product reserve_a)

unfoldable pub sort_tokens : Address → Address → Outcome RouterError (Address × Address)
sort_tokens token_a token_b = do
  raise_if (token_a == token_b) RouterError.identical_tokens
  ok (if ltb token_a token_b then (token_a, token_b) else (token_b, token_a))

-- A division by an empty reserve traps.
unfoldable pub compute_optimal_amounts : ℤ → ℤ → ℤ → ℤ → ℤ → ℤ → Outcome RouterError (ℤ × ℤ)
unfolding checked_mul checked_div
compute_optimal_amounts amount_a_desired amount_b_desired amount_a_min amount_b_min reserve_a
      reserve_b =
    let proportional = do
      product_b ← ok_or (checked_mul amount_a_desired reserve_b) RouterError.insufficient_liquidity
      amount_b_optimal ← unwrap (checked_div product_b reserve_a)
      let less_b = do
        raise_if (ltb_ℤ amount_b_optimal amount_b_min) RouterError.slippage_exceeded
        ok (amount_a_desired, amount_b_optimal)
      let less_a = do
        product_a ←
            ok_or (checked_mul amount_b_desired reserve_a) RouterError.insufficient_liquidity
        amount_a_optimal ← unwrap (checked_div product_a reserve_b)
        raise_if (ltb_ℤ amount_a_optimal amount_a_min) RouterError.slippage_exceeded
        ok (amount_a_optimal, amount_b_desired)
      if leb_ℤ amount_b_optimal amount_b_desired then less_b else less_a
    in if eq_ℤ reserve_a (pos 0) && eq_ℤ reserve_b (pos 0)
      then ok (amount_a_desired, amount_b_desired)
      else proportional

module _ {W : Type 0} (n : Network W) (factory : Address) where
  unfoldable pub get_pair_address : W → Address → Address → Outcome RouterError Address
  get_pair_address w token_a token_b = do
    pair ← ok_or (n.get_pair factory token_a token_b w) RouterError.pair_not_found
    raise_if (not (n.is_pair factory pair w)) RouterError.pair_not_found
    ok pair

  unfoldable pub get_pair_reserves_and_fee :
      W → Address → Address → Address → Outcome RouterError (ℤ × ℤ × ℕ)
  unfolding sort_tokens checked_mul
  get_pair_reserves_and_fee w pair token_in token_out = do
    (reserve_a, reserve_b) ← ok_or (n.get_reserves pair w) RouterError.pair_not_found
    raise_if
        (leb_ℤ reserve_a (pos 0)
          || leb_ℤ reserve_b (pos 0)
          || not (is_some (checked_mul reserve_a reserve_b)))
        RouterError.insufficient_liquidity
    fee_bps ← ok_or (n.get_effective_fee_bps pair w) RouterError.pair_not_found
    raise_if (ltb 100 fee_bps) RouterError.pair_not_found
    (token_0, token_1) ← sort_tokens token_in token_out
    ok (
        if token_in == token_0
        then (reserve_a, reserve_b, fee_bps)
        else (reserve_b, reserve_a, fee_bps))

  -- The reserves and the fee of one hop, as every loop over a path reads them.
  abbrev pub hop : W → Address → Address → Outcome RouterError (ℤ × ℤ × ℕ)
  hop w token_in token_out = do
    pair ← get_pair_address w token_in token_out
    get_pair_reserves_and_fee w pair token_in token_out

  -- The loop of `get_path_amounts_out` from one token on, over the rest of the path.
  unfoldable pub amounts_out : W → Address → List Address → ℤ → Outcome RouterError (List ℤ)
  unfolding get_pair_address get_pair_reserves_and_fee get_amount_out
  amounts_out w token_in [] current = ok []
  amounts_out w token_in (token_out ∷ path) current = do
    (reserve_in, reserve_out, fee_bps) ← hop w token_in token_out
    out ← get_amount_out current reserve_in reserve_out fee_bps
    more ← amounts_out w token_out path out
    ok (out ∷ more)

  unfoldable pub get_path_amounts_out : W → List Address → ℤ → Outcome RouterError (List ℤ)
  unfolding amounts_out
  get_path_amounts_out w [] amount_in = err RouterError.invalid_path
  get_path_amounts_out w (a ∷ []) amount_in = err RouterError.invalid_path
  get_path_amounts_out w (a ∷ b ∷ path) amount_in = amounts_out w a (b ∷ path) amount_in

  -- The loop of `get_path_minimums`, which walks backwards: the minimums of the hops, and what the
  -- hop before has to put out.
  unfoldable pub minimums : W → Address → List Address → ℤ → Outcome RouterError (List ℤ × ℤ)
  unfolding get_pair_address get_pair_reserves_and_fee get_amount_in
  minimums w token_in [] amount_out_min = ok ([], amount_out_min)
  minimums w token_in (token_out ∷ path) amount_out_min = do
    (min_amounts, current) ← minimums w token_out path amount_out_min
    (reserve_in, reserve_out, fee_bps) ← hop w token_in token_out
    let needed = get_amount_in current reserve_in reserve_out fee_bps
    next ← (if leb_ℤ current (pos 0) then ok (pos 0) else needed)
    ok (current ∷ min_amounts, next)

  unfoldable pub get_path_minimums : W → List Address → ℤ → Outcome RouterError (List ℤ)
  unfolding minimums
  get_path_minimums w [] amount_out_min = err RouterError.invalid_path
  get_path_minimums w (a ∷ []) amount_out_min = err RouterError.invalid_path
  get_path_minimums w (a ∷ b ∷ path) amount_out_min =
      minimums w a (b ∷ path) amount_out_min >>= λ r. ok r.0

  -- The loop of `swap_tokens_for_exact_tokens`, which walks backwards: the inputs of the hops, and
  -- the first of them, or the output where there is no hop.
  unfoldable pub amounts_in : W → Address → List Address → ℤ → Outcome RouterError (List ℤ × ℤ)
  unfolding get_pair_address get_pair_reserves_and_fee get_amount_in
  amounts_in w token_in [] amount_out = ok ([], amount_out)
  amounts_in w token_in (token_out ∷ path) amount_out = do
    (required, current) ← amounts_in w token_out path amount_out
    (reserve_in, reserve_out, fee_bps) ← hop w token_in token_out
    needed ← get_amount_in current reserve_in reserve_out fee_bps
    ok (needed ∷ required, needed)
