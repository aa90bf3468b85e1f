-- ===== src/Factory/Views.antt =====
-- The views of the factory that compute (contracts/factory/src/lib.rs).
use coralswap_core.Prelude.{
  List, [], get_elem?, if◌then◌else◌, length, ltb, min, suc, zero, ℕ, ◌+◌, ◌-◌, ◌==◌, ◌∷◌,
}
use coralswap_core.Env.{Address}
use coralswap_core.Errors.{FactoryError}
use coralswap_core.Factory.State.{Deployed, FactoryStore, add_u32}
use coralswap_core.Outcome.{Outcome, ok, raise_if, unwrap, ◌>>=◌, ◌>>◌}

-- The loop of `get_all_pairs` from index `i` on, for `count` entries.
unfoldable pub copy_pairs : List Address → ℕ → ℕ → Outcome FactoryError (List Address)
copy_pairs pair_list i zero = ok []
copy_pairs pair_list i (suc count) = do
  pair ← unwrap (get_elem? pair_list i)
  more ← copy_pairs pair_list (i + 1) count
  ok (pair ∷ more)

-- `offset + limit` is a sum of type `u32`, which traps when it overflows.
unfoldable pub get_all_pairs : ℕ → ℕ → FactoryStore → Outcome FactoryError (List Address)
unfolding copy_pairs
get_all_pairs offset limit s = do
  raise_if (ltb 50 limit) FactoryError.limit_too_high
  wanted ← unwrap (add_u32 offset limit)
  let total = length s.pair_list
  let end = min wanted total
  let page = copy_pairs s.pair_list offset (end - offset)
  if ltb offset total then page else ok []

module _ {W : Type 0} (d : Deployed W) where
  -- `deployed_address` is the host's: the address that a salt leads to.
  unfoldable pub get_pair_address : (ℕ → Address) → Address → Address → Outcome FactoryError Address
  get_pair_address deployed_address token_a token_b = do
    raise_if (token_a == token_b) FactoryError.identical_tokens
    ok (
        if ltb token_a token_b
        then deployed_address (d.pair_salt token_a token_b)
        else deployed_address (d.pair_salt token_b token_a))
