-- ===== src/Oracle/Tests.antt =====
-- Tests and witnesses of the oracle.
use coralswap_core.Prelude.{
  [], arith, if◌then◌else◌, ltb, refl, some, ℕ, ◌+◌, ◌/◌, ◌==◌, ◌∷◌, ◌≡◌, ◌⊎◌,
}
use coralswap_core.Int.{pos, wrapping_add, wrapping_mul}
use coralswap_core.Oracle.{
  Observations, OracleState, Sample, newest, prune_expired, prune_loop, push, sample, scan,
  update_cumulative_prices,
}
use coralswap_core.Oracle.Bracket.{AllBefore, IsBracket}
use coralswap_core.Oracle.Prune.{IsPruned}
use coralswap_core.Oracle.Ring.{IsRing, push_is_enqueue}
use coralswap_core.Oracle.Scan.{scan_brackets_target}
use coralswap_core.Oracle.Update.{update_records_sample}
use coralswap_core.Outcome.{ok}

abbrev first_sample : Sample
first_sample = record { at_ledger = 4; cumulative_a = pos 0; cumulative_b = pos 0 }

abbrev second_sample : Sample
second_sample = record { at_ledger = 10; cumulative_a = pos 60; cumulative_b = pos 120 }

abbrev third_sample : Sample
third_sample = record { at_ledger = 11; cumulative_a = pos 70; cumulative_b = pos 140 }

abbrev two_samples : Observations
two_samples = record { slots = first_sample ∷ second_sample ∷ []; head = 0; count = 2 }

abbrev some_state : OracleState
some_state = record {
  price_a_cumulative = pos 60;
  price_b_cumulative = pos 120;
  ring = two_samples;
}

two_samples-IsRing : IsRing two_samples
two_samples-IsRing = record {
  slots_fit = omega arith;
  live_fit = omega arith;
  head_fits = omega arith;
  no_wrap = λ h. omega arith;
}

-- A day later both samples have expired.
prune_all : prune_expired 90_000 two_samples ≡ some (record two_samples { head = 2; count = 0 })
unfolding prune_expired prune_loop sample
prune_all = refl

push_is_enqueue_example :
    IsRing (push third_sample two_samples)
    × (sample (push third_sample two_samples) 2 ≡ (
        if ltb two_samples.count 24
        then (if 2 == two_samples.count then some third_sample else sample two_samples 2)
        else (if 2 == 23 then some third_sample else sample two_samples (2 + 1))))
push_is_enqueue_example = push_is_enqueue third_sample two_samples 2 two_samples-IsRing

update_records_sample_example :
    (k : ℕ) × (kept : Observations) × IsPruned 86_405 k some_state.ring kept
    × (let price_a = pos (3_000 / 1_000) in
        let price_b = pos (1_000 / 3_000) in
        let sum_a = wrapping_add some_state.price_a_cumulative (wrapping_mul price_a (pos 5)) in
        let sum_b = wrapping_add some_state.price_b_cumulative (wrapping_mul price_b (pos 5)) in
        let x : Sample = record {
          at_ledger = 86_405;
          cumulative_a = sum_a;
          cumulative_b = sum_b;
        } in
        let s' : OracleState = record {
          price_a_cumulative = sum_a;
          price_b_cumulative = sum_b;
          ring = push x kept;
        } in
        IsRing s'.ring
        × (newest s'.ring ≡ some x)
        × (update_cumulative_prices 86_405 (pos 1_000) (pos 3_000) 5 some_state ≡ ok s'))
update_records_sample_example =
    update_records_sample 86_405 1_000 3_000 5 some_state two_samples-IsRing (omega arith)
      (omega arith) (omega arith) (omega arith) (omega arith)

scan_brackets_target_example :
    (first last : Sample) × (scan two_samples.count 0 7 two_samples first_sample first_sample
      ≡ ok (first, last))
    × (IsBracket 0 7 two_samples first last ⊎ AllBefore 0 7 two_samples)
unfolding sample
scan_brackets_target_example =
    scan_brackets_target 7 two_samples first_sample two_samples-IsRing refl (omega arith)
