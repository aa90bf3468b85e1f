-- ===== src/Oracle/Scan.antt =====
-- Which samples the search of `consult_twap` ends with.
use coralswap_core.Prelude.{
  Bool-cases, arith, false, if◌then◌else◌, inl, inr, leb, refl, some, suc, true, zero, ℕ, ◌+◌, ◌<◌,
  ◌∙◌, ◌≡◌, ◌≤◌, ◌⊎◌,
}
use coralswap_core.Oracle.{Observations, Sample, sample, scan}
use coralswap_core.Oracle.Bracket.{
  AllBefore, IsBracket, found-IsBracket, sample-bound, sample-some, wider,
}
use coralswap_core.Oracle.Ring.{IsRing}
use coralswap_core.Outcome.{ok}

scan-here :
    (n i target : ℕ) (s : Observations) (first last x : Sample)
    → sample s i ≡ some x
    → target ≤ x.at_ledger
    → last.at_ledger ≤ target
    → scan (suc n) i target s first last ≡ ok (if leb x.at_ledger target then x else first, x)
unfolding scan
scan-here n i target s first last x e reached hl = rw e (ground arith)

scan-later :
    (n i target : ℕ) (s : Observations) (first last x : Sample)
    → sample s i ≡ some x
    → x.at_ledger < target
    → scan (suc n) i target s first last ≡ scan n (i + 1) target s x last
unfolding scan
scan-later n i target s first last x e before =
    let starts : leb x.at_ledger target ≡ true = ground arith in
    let stops : leb target x.at_ledger ≡ false = ground arith in rw (scan, e, starts, stops) refl

scan_from :
    (remaining i target : ℕ) (s : Observations) (first last : Sample)
    → IsRing s
    → first.at_ledger < target
    → last.at_ledger ≤ target
    → sample s i ≡ some first
    → i + 1 + remaining ≡ s.count
    → (first' last' : Sample) × (scan remaining (i + 1) target s first last ≡ ok (first', last'))
      × (IsBracket (i + 1) target s first' last' ⊎ AllBefore (i + 1) target s)
unfolding scan
scan_from zero i target s first last r hf hl e n =
    (first, last, refl, inr (λ j y h k. let bound = sample-bound s j k in absurd (omega arith)))
scan_from (suc remaining) i target s first last r hf hl e n =
    let (x, at_i) = sample-some s (i + 1) r (omega arith) in
    elim (Bool-cases (leb target x.at_ledger)) [
      | inl found ↦ (
        _,
        x,
        scan-here remaining (i + 1) target s first last x at_i (ground arith) hl,
        inl (found-IsBracket i target s first x hf e at_i (ground arith)),
      )
      | inr below ↦
          let before : x.at_ledger < target = ground arith in
          let (first', last', done, result) =
            scan_from remaining (i + 1) target s x last r before hl at_i (omega arith) in
          (
            first',
            last',
            scan-later remaining (i + 1) target s first last x at_i before ∙ done,
            wider (i + 1) target s first' last' x at_i before result,
          )
    ]

scan_all :
    (n target : ℕ) (s : Observations) (oldest : Sample)
    → s.count ≡ n
    → IsRing s
    → sample s 0 ≡ some oldest
    → oldest.at_ledger ≤ target
    → (first last : Sample) × (scan n 0 target s oldest oldest ≡ ok (first, last))
      × (IsBracket 0 target s first last ⊎ AllBefore 0 target s)
scan_all zero target s oldest n r e h = let some_live = sample-bound s 0 e in absurd (omega arith)
scan_all (suc m) target s oldest n r e h = elim (Bool-cases (leb target oldest.at_ledger)) [
  | inl found ↦ (
    _,
    oldest,
    scan-here m 0 target s oldest oldest oldest e (ground arith) h,
    inl (record {
      index = 0;
      from = omega arith;
      last_at = e;
      not_before = ground arith;
      not_after = ground arith;
      earlier = λ j y low high at_j. absurd (omega arith);
      adjacent = inl (ground arith, ground arith);
    }),
  )
  | inr below ↦
      let before : oldest.at_ledger < target = ground arith in
      let (first, last, done, result) =
        scan_from m 0 target s oldest oldest r before h e (omega arith) in
      (
        first,
        last,
        scan-later m 0 target s oldest oldest oldest e before ∙ done,
        wider 0 target s first last oldest e before result,
      )
]

-- The search ends on every ring whose oldest sample is not after the target: with the first sample
-- that is not before the target and, unless it is at the target, the one just before it, or where
-- no sample reaches the target.
pub scan_brackets_target :
    (target : ℕ) (s : Observations) (oldest : Sample)
    → IsRing s
    → sample s 0 ≡ some oldest
    → oldest.at_ledger ≤ target
    → (first last : Sample) × (scan s.count 0 target s oldest oldest ≡ ok (first, last))
      × (IsBracket 0 target s first last ⊎ AllBefore 0 target s)
scan_brackets_target target s oldest r e h = scan_all s.count target s oldest refl r e h
