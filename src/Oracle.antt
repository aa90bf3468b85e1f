-- ===== src/Oracle.antt =====
-- The price oracle of a pair (contracts/pair/src/oracle/mod.rs): a ring of samples of the cumulative
-- prices, and the average over a window. No entry point of the pair records samples yet.
pub mod Ring
pub mod Prune
pub mod Update
pub mod Consult
mod Tests
pub mod Bracket
pub mod Scan
use coralswap_core.Prelude.{
  List, Option, [], get_elem?, if◌then◌else◌, leb, length, ltb, none, set, some, suc, zero, ℕ, ◌%◌,
  ◌&&◌, ◌++◌, ◌+◌, ◌-◌, ◌==◌, ◌||◌, ◌∷◌,
}
use coralswap_core.Errors.{OracleError}
use coralswap_core.Int.{
  checked_div, checked_mul, eq_ℤ, pos, quot, sub_ℕ, wrapping_add, wrapping_mul, wrapping_sub, ℤ,
}
use coralswap_core.Outcome.{Outcome, ok, raise_if, unwrap, ◌>>=◌, ◌>>◌}

abbrev pub max_twap_window : ℕ
max_twap_window = 86_400

abbrev pub max_observations : ℕ
max_observations = 24

-- The ledger, and the two cumulative prices at it.
pub record Sample : Type 0 where
  pub at_ledger : ℕ
  pub cumulative_a : ℤ
  pub cumulative_b : ℤ

-- `slots`, `head` and `count` of the source's `OracleState`.
pub record Observations : Type 0 where
  pub slots : List Sample
  pub head : ℕ
  pub count : ℕ

pub record OracleState : Type 0 where
  pub price_a_cumulative : ℤ
  pub price_b_cumulative : ℤ
  pub ring : Observations

unfoldable pub sample : Observations → ℕ → Option Sample
sample s index =
    if leb s.count index then none else get_elem? s.slots ((s.head + index) % max_observations)

abbrev pub newest : Observations → Option Sample
newest s = if s.count == 0 then none else sample s (s.count - 1)

unfoldable pub push : Sample → Observations → Observations
push x s =
    let index = (s.head + s.count) % max_observations in
    if ltb s.count max_observations
    then record s {
      slots = if ltb index (length s.slots) then set s.slots index x else s.slots ++ x ∷ [];
      count = s.count + 1;
    }
    else record s { slots = set s.slots s.head x; head = (s.head + 1) % max_observations }

-- The loop of `prune_expired`, with fuel. Every round drops a sample.
unfoldable pub prune_loop : ℕ → ℕ → Observations → Option Observations
prune_loop zero now s = none
prune_loop (suc fuel) now s =
    let rest =
      prune_loop fuel now
        (record s { head = (s.head + 1) % max_observations; count = s.count - 1 }) in
    elim (sample s 0) [
      | none ↦ some s
      | some oldest ↦ if leb now (oldest.at_ledger + max_twap_window) then some s else rest
    ]

-- `count + 1` rounds are enough.
unfoldable pub prune_expired : ℕ → Observations → Option Observations
prune_expired now s = prune_loop (s.count + 1) now s

-- A call with an empty reserve or no time changes nothing. `i128::MIN / -1` traps.
unfoldable pub update_cumulative_prices :
    ℕ → ℤ → ℤ → ℕ → OracleState → Outcome OracleError OracleState
unfolding wrapping_mul wrapping_add checked_div
update_cumulative_prices now reserve_a reserve_b time_elapsed s =
    let recorded = do
      price_a ← unwrap (checked_div reserve_b reserve_a)
      price_b ← unwrap (checked_div reserve_a reserve_b)
      let sum_a = wrapping_add s.price_a_cumulative (wrapping_mul price_a (pos time_elapsed))
      let sum_b = wrapping_add s.price_b_cumulative (wrapping_mul price_b (pos time_elapsed))
      pruned ← unwrap (prune_expired now s.ring)
      let x : Sample = record { at_ledger = now; cumulative_a = sum_a; cumulative_b = sum_b }
      ok (record { price_a_cumulative = sum_a; price_b_cumulative = sum_b; ring = push x pruned })
    in if eq_ℤ reserve_a (pos 0) || eq_ℤ reserve_b (pos 0) || time_elapsed == 0
      then ok s
      else recorded

-- The search of `consult_twap` over the samples from `i` on, `remaining` of them.
unfoldable pub scan :
    ℕ → ℕ → ℕ → Observations → Sample → Sample → Outcome OracleError (Sample × Sample)
scan zero i target s first last = ok (first, last)
scan (suc remaining) i target s first last = do
  x ← unwrap (sample s i)
  let first' = if leb x.at_ledger target then x else first
  let rest = scan remaining (i + 1) target s first' last
  if leb target x.at_ledger && leb last.at_ledger target then ok (first', x) else rest

-- A cumulative price at the target, between two samples.
unfoldable pub interpolate : ℕ → ℕ → ℕ → ℤ → ℤ → Outcome OracleError ℤ
unfolding wrapping_add wrapping_sub checked_mul checked_div
interpolate target first_ledger last_ledger first last =
    let between = do
      product ← unwrap (checked_mul (wrapping_sub last first) (sub_ℕ target first_ledger))
      step ← unwrap (checked_div product (sub_ℕ last_ledger first_ledger))
      ok (wrapping_add first step)
    in if last_ledger == first_ledger then ok first else between

unfoldable pub consult_twap : ℕ → ℕ → OracleState → Outcome OracleError (ℤ × ℤ)
unfolding wrapping_sub quot
consult_twap current window state = do
  raise_if (window == 0) OracleError.window_too_short
  raise_if (ltb max_twap_window window) OracleError.window_too_long
  let s = state.ring
  raise_if (s.count == 0) OracleError.window_too_short
  let target = current - window
  oldest ← unwrap (sample s 0)
  raise_if (ltb target oldest.at_ledger) OracleError.window_too_short
  (first, last) ← scan s.count 0 target s oldest oldest
  at_a ← interpolate target first.at_ledger last.at_ledger first.cumulative_a last.cumulative_a
  at_b ← interpolate target first.at_ledger last.at_ledger first.cumulative_b last.cumulative_b
  latest ← unwrap (newest s)
  raise_if (ltb latest.at_ledger (target + window)) OracleError.window_too_short
  let elapsed = latest.at_ledger - target
  let average_a = quot (wrapping_sub latest.cumulative_a at_a) (pos elapsed)
  let average_b = quot (wrapping_sub latest.cumulative_b at_b) (pos elapsed)
  ok (if elapsed == 0 then (pos 0, pos 0) else (average_a, average_b))
