-- ===== src/Pair/DoubleCount.antt =====
-- The reserves that a single-sided deposit records (`mint_with_one_token` of
-- contracts/pair/src/lib.rs).
use coralswap_core.Prelude.{arith, false, none, refl, some, true, ℕ, ◌≡◌}
use coralswap_core.Env.{Address, Env}
use coralswap_core.Int.{leb_ℤ, ltb_ℤ, negsuc, pos, ℤ, ◌*ℤ◌, ◌+ℤ◌}
use coralswap_core.Int.Laws.{checked_add_lem, checked_mul_lem, checked_sub_lem, int_laws}
use coralswap_core.Outcome.{ok}
use coralswap_core.Pair.Run.{SwapRun, swap_inner-run}
use coralswap_core.Pair.Single.{issue_lp, mint_with_one_token}
use coralswap_core.Pair.SingleRun.{mint_with_one_token-run}
use coralswap_core.Pair.State.{FactoryView, PairStorage, TokenClient, World, set_locked}
use coralswap_core.Pair.Swap.{forward_fees, protocol_fee, settle_reserves}

without_fee :
    (view : FactoryView) (i : ℤ) (fee : ℕ) → view.fee_to ≡ none → protocol_fee view i fee ≡ pos 0
unfolding protocol_fee
without_fee view i fee e = ground arith

-- With no protocol fee a swap records as the reserves what the tokens report afterwards.
settled_balances :
    (timestamp : ℕ) (state : PairStorage) (x y : ℤ) {state' : PairStorage}
    → settle_reserves timestamp state x y (pos 0) (pos 0) ≡ ok state'
    → (state'.reserve_a ≡ x) × (state'.reserve_b ≡ y)
unfolding settle_reserves
settled_balances timestamp state x y h =
    grind (int_laws, checked_sub_lem x (pos 0), checked_sub_lem y (pos 0))

below_sum : (x d : ℤ) → leb_ℤ d (pos 0) ≡ false → ltb_ℤ x (x +ℤ d) ≡ true
unfolding ◌+ℤ◌
below_sum (pos x) (pos d) h = ground arith
below_sum (negsuc x) (pos d) h = ground arith
below_sum x (negsuc d) h = cc

module _ {T : Type 0} (tokens : TokenClient T) where
  swapped_balances :
      (env : Env) (view : FactoryView) (a b : ℤ) (w w' : World T)
      (done : SwapRun tokens env view a b w w')
      → view.fee_to ≡ none
      → (done.state'.reserve_a ≡ tokens.balance w'.ledger done.state.token_a env.contract)
        × (done.state'.reserve_b ≡ tokens.balance w'.ledger done.state.token_b env.contract)
  unfolding forward_fees
  swapped_balances env view a b w w' done e =
      let fee_a = without_fee view done.amount_a_in done.fee_bps e in
      let fee_b = without_fee view done.amount_b_in done.fee_bps e in
      let passed = done.forwarded in
      let same : done.paid_out ≡ w'.ledger = ground arith in
      let bal_a = tokens.balance done.paid_out done.state.token_a env.contract in
      let bal_b = tokens.balance done.paid_out done.state.token_b env.contract in
      let written : settle_reserves env.timestamp done.state bal_a bal_b (pos 0) (pos 0)
          ≡ ok done.state' =
        let e' = done.settled in cc in
      let (ra, rb) =
        settled_balances env.timestamp done.state bal_a bal_b {state' = done.state'} written in
      (cc, cc)

  -- What the issue of LP adds to the reserves.
  issue_lp-reserves :
      (env : Env) (to : Address) (a b min_lp_out : ℤ) (w : World T) (post : PairStorage)
      {r : World T × ℤ}
      → w.store.pair_state ≡ some post
      → issue_lp tokens env to a b min_lp_out w ≡ ok r
      → (state' : PairStorage) × (r.0.store.pair_state ≡ some state')
        × (state'.reserve_a ≡ post.reserve_a +ℤ a)
        × (state'.reserve_b ≡ post.reserve_b +ℤ b)
        × (r.0.ledger ≡ w.ledger)
  unfolding issue_lp
  issue_lp-reserves env to a b min_lp_out w post {r} e h =
      let new_a = post.reserve_a +ℤ a in
      let new_b = post.reserve_b +ℤ b in
      let state' = record post {
        reserve_a = new_a;
        reserve_b = new_b;
        k_last = new_a *ℤ new_b;
        block_timestamp_last = env.timestamp;
      } in
      let stored : r.0.store.pair_state ≡ some state' = ground (
        arith,
        checked_add_lem post.reserve_a a,
        checked_add_lem post.reserve_b b,
        checked_mul_lem new_a new_b,
      ) in
      (state', stored, refl, refl, ground arith)

  -- A single-sided deposit that succeeds on a pair without a protocol fee records reserves strictly
  -- above what the tokens report for the pair, on both sides: the swap has already recorded the whole
  -- balances, and the two deposits are added once more.
  pub reserves_exceed_balances :
      (env : Env) (view : FactoryView) (to token_in : Address) (amount min_lp_out : ℤ) (w : World T)
      (state : PairStorage) {r : World T × ℤ}
      → w.store.pair_state ≡ some state
      → view.fee_to ≡ none
      → mint_with_one_token tokens env view to token_in amount min_lp_out w ≡ ok r
      → (state' : PairStorage) × (r.0.store.pair_state ≡ some state')
        × (ltb_ℤ (tokens.balance r.0.ledger state.token_a env.contract) state'.reserve_a ≡ true)
        × (ltb_ℤ (tokens.balance r.0.ledger state.token_b env.contract) state'.reserve_b ≡ true)
  reserves_exceed_balances env view to token_in amount min_lp_out w state {r} es e h =
      let done = mint_with_one_token-run tokens env view to token_in amount min_lp_out w h in
      let begun = record (set_locked true w) { ledger = done.pulled } in
      let run_of =
        swap_inner-run tokens env view done.out_a done.out_b env.contract begun done.swap_done in
      let same : run_of.state ≡ state = let k = run_of.state_read in cc in
      let (swap_a, swap_b) =
        swapped_balances env view done.out_a done.out_b begun done.swapped run_of e in
      let (state', written, sum_a, sum_b, ledger) =
        issue_lp-reserves env to done.deposit_a done.deposit_b min_lp_out done.swapped run_of.state'
          run_of.stored done.issue_done in
      let above_a = below_sum run_of.state'.reserve_a done.deposit_a done.positive_a in
      let above_b = below_sum run_of.state'.reserve_b done.deposit_b done.positive_b in
      let k = done.result in (state', cc, cc, cc)
