-- ===== src/Oracle/Consult.antt =====
-- When `consult_twap` gives a value.
use coralswap_core.Prelude.{Bool, arith, ltb, some, ℕ, ◌+◌, ◌-◌, ◌<◌, ◌==◌, ◌≡◌, ◌≤◌}
use coralswap_core.Errors.{OracleError}
use coralswap_core.Int.{ℤ}
use coralswap_core.Oracle.{
  OracleState, Sample, consult_twap, interpolate, max_twap_window, newest, sample, scan,
}
use coralswap_core.Outcome.{>>=-then, Outcome, ok, raise_if, raise_if-eq-ok, unwrap, unwrap-eq-ok}

-- The average is of a window of one to `max_twap_window` ledgers; the oldest sample is not after the
-- start of the window, and the newest one is of this ledger.
pub consult_covers_window :
    (current window : ℕ) (state : OracleState) {a b : ℤ}
    → consult_twap current window state ≡ ok (a, b)
    → (0 < window)
      × (window ≤ max_twap_window)
      × (oldest latest : Sample) × (sample state.ring 0 ≡ some oldest)
      × (oldest.at_ledger ≤ current - window)
      × (newest state.ring ≡ some latest)
      × (current ≤ latest.at_ledger)
unfolding consult_twap
consult_covers_window current window state h =
    let s = state.ring in
    let target = current - window in
    let check : Bool → OracleError → Outcome OracleError (Unit {0}) = λ b e. raise_if b e in
    >>=-then (check (window == 0) OracleError.window_too_short) _ h λ u0 e0 h0.
      >>=-then (check (ltb max_twap_window window) OracleError.window_too_long) _ h0 λ u1 e1 h1.
        >>=-then (check (s.count == 0) OracleError.window_too_short) _ h1 λ u2 e2 h2.
          >>=-then (unwrap (sample s 0)) _ h2 λ oldest e3 h3.
            >>=-then (check (ltb target oldest.at_ledger) OracleError.window_too_short) _ h3
              λ u4 e4 h4. >>=-then (scan s.count 0 target s oldest oldest) _ h4 λ pair e5 h5.
                let (first, last) = pair in
                >>=-then
                  (interpolate target first.at_ledger last.at_ledger first.cumulative_a
                    last.cumulative_a)
                  _ h5
                  λ at_a e6 h6.
                    >>=-then
                      (interpolate target first.at_ledger last.at_ledger first.cumulative_b
                        last.cumulative_b)
                      _ h6
                      λ at_b e7 h7. >>=-then (unwrap (newest s)) _ h7 λ latest e8 h8.
                        >>=-then
                          (check (ltb latest.at_ledger (target + window))
                            OracleError.window_too_short)
                          _ h8
                          λ u9 e9 h9.
                            let some_window = raise_if-eq-ok _ OracleError.window_too_short e0 in
                            let short_window = raise_if-eq-ok _ OracleError.window_too_long e1 in
                            let old = raise_if-eq-ok _ OracleError.window_too_short e4 in
                            let fresh = raise_if-eq-ok _ OracleError.window_too_short e9 in
                            (
                              ground arith,
                              ground arith,
                              oldest,
                              latest,
                              unwrap-eq-ok _ e3,
                              ground arith,
                              unwrap-eq-ok _ e8,
                              ground arith,
                            )
