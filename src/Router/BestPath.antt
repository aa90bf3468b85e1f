-- ===== src/Router/BestPath.antt =====
-- The search for the best route (`Router::get_best_path` in contracts/router/src/lib.rs).
use coralswap_core.Prelude.{Bool, List, [], if◌then◌else◌, ℕ, ◌+◌, ◌==◌, ◌||◌, ◌∷◌}
use coralswap_core.Env.{Address}
use coralswap_core.Errors.{RouterError}
use coralswap_core.Int.{leb_ℤ, ltb_ℤ, negsuc, pos, ℤ}
use coralswap_core.Outcome.{Outcome, err, ok, ok_or, raise_if, trap, ◌>>=◌, ◌>>◌}
use coralswap_core.Pair.Swap.{amount_in}
use coralswap_core.Router.Paths.{get_amount_out, get_pair_address, get_pair_reserves_and_fee, hop}
use coralswap_core.Router.State.{Network, RouterWorld}

-- `best_path` and `best_out`.
pub record Best : Type 0 where
  pub path : List Address
  pub out : ℤ

abbrev pub no_best : Best
no_best = record { path = []; out = negsuc 0 }

-- A hub that is one of the two ends is passed over.
abbrev pub is_end : Address → Address → Address → Bool
is_end token_in token_out hub = hub == token_in || hub == token_out

-- A candidate whose quotes fail is passed over; a better one takes the place of the best.
abbrev pub offer : List Address → Outcome RouterError ℤ → Best → Outcome RouterError Best
offer path (ok out) best =
    ok (if ltb_ℤ best.out out then record { path = path; out = out } else best)
offer path (err e) best = ok best
offer path trap best = trap

module _ {W : Type 0} (n : Network W) (factory : Address) (w : W) where
  unfoldable pub one_hop : Address → Address → ℤ → Outcome RouterError ℤ
  unfolding get_pair_address get_pair_reserves_and_fee get_amount_out
  one_hop token_in token_out amount_in = do
    (r_in, r_out, fee) ← hop n factory w token_in token_out
    get_amount_out amount_in r_in r_out fee

  -- All pairs are found before any is asked for its reserves, and these are read before any quote.
  unfoldable pub two_hops : Address → Address → Address → ℤ → Outcome RouterError ℤ
  unfolding get_pair_address get_pair_reserves_and_fee get_amount_out
  two_hops token_in hub token_out amount_in = do
    p1 ← get_pair_address n factory w token_in hub
    p2 ← get_pair_address n factory w hub token_out
    (r1_in, r1_out, f1) ← get_pair_reserves_and_fee n factory w p1 token_in hub
    (r2_in, r2_out, f2) ← get_pair_reserves_and_fee n factory w p2 hub token_out
    mid ← get_amount_out amount_in r1_in r1_out f1
    get_amount_out mid r2_in r2_out f2

  unfoldable pub three_hops : Address → Address → Address → Address → ℤ → Outcome RouterError ℤ
  unfolding get_pair_address get_pair_reserves_and_fee get_amount_out
  three_hops token_in hub_i hub_j token_out amount_in = do
    p1 ← get_pair_address n factory w token_in hub_i
    p2 ← get_pair_address n factory w hub_i hub_j
    p3 ← get_pair_address n factory w hub_j token_out
    (r1_in, r1_out, f1) ← get_pair_reserves_and_fee n factory w p1 token_in hub_i
    (r2_in, r2_out, f2) ← get_pair_reserves_and_fee n factory w p2 hub_i hub_j
    (r3_in, r3_out, f3) ← get_pair_reserves_and_fee n factory w p3 hub_j token_out
    mid1 ← get_amount_out amount_in r1_in r1_out f1
    mid2 ← get_amount_out mid1 r2_in r2_out f2
    get_amount_out mid2 r3_in r3_out f3

  -- The loop over the hubs for two hops.
  unfoldable pub try_hubs : Address → Address → ℤ → List Address → Best → Outcome RouterError Best
  unfolding two_hops
  try_hubs token_in token_out amount_in [] best = ok best
  try_hubs token_in token_out amount_in (hub ∷ hubs) best = do
    let offered =
        offer (token_in ∷ hub ∷ token_out ∷ []) (two_hops token_in hub token_out amount_in) best
    next ← (if is_end token_in token_out hub then ok best else offered)
    try_hubs token_in token_out amount_in hubs next

  -- The inner loop for three hops, from the second hub at index `j` on; `hub_i` is at index `i`.
  unfoldable pub try_second :
      Address → Address → ℤ → ℕ → Address → ℕ → List Address → Best → Outcome RouterError Best
  unfolding three_hops
  try_second token_in token_out amount_in i hub_i j [] best = ok best
  try_second token_in token_out amount_in i hub_i j (hub_j ∷ hubs) best = do
    let offered =
        offer (token_in ∷ hub_i ∷ hub_j ∷ token_out ∷ [])
          (three_hops token_in hub_i hub_j token_out amount_in) best
    next ←
        (if i == j || is_end token_in token_out hub_i || is_end token_in token_out hub_j
          then ok best
          else offered)
    try_second token_in token_out amount_in i hub_i (j + 1) hubs next

  -- The outer loop, from the first hub at index `i` on.
  unfoldable pub try_first :
      Address → Address → ℤ → List Address → ℕ → List Address → Best → Outcome RouterError Best
  unfolding try_second
  try_first token_in token_out amount_in all i [] best = ok best
  try_first token_in token_out amount_in all i (hub_i ∷ hubs) best = do
    next ← try_second token_in token_out amount_in i hub_i 0 all best
    try_first token_in token_out amount_in all (i + 1) hubs next

module _ {W : Type 0} (n : Network W) where
  unfoldable pub get_best_path :
      Address → Address → ℤ → RouterWorld W → Outcome RouterError (List Address × ℤ)
  unfolding one_hop try_hubs try_first
  get_best_path token_in token_out amount_in w = do
    raise_if (token_in == token_out) RouterError.identical_tokens
    raise_if (leb_ℤ amount_in (pos 0)) RouterError.zero_amount
    factory ← ok_or w.store.factory RouterError.pair_not_found
    let hubs = w.store.hubs
    direct ←
        offer (token_in ∷ token_out ∷ []) (one_hop n factory w.network token_in token_out amount_in)
          no_best
    via_one ← try_hubs n factory w.network token_in token_out amount_in hubs direct
    best ← try_first n factory w.network token_in token_out amount_in hubs 0 hubs via_one
    raise_if (ltb_ℤ best.out (pos 0)) RouterError.pair_not_found
    ok (best.path, best.out)
