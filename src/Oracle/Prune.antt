-- ===== src/Oracle/Prune.antt =====
-- Which samples `prune_expired` drops, and when `consult_twap` gives a value.
use coralswap_core.Prelude.{
  Bool-cases, Option-cases, ap, arith, inl, inr, leb, none, refl, some, suc, sym, zero, ℕ, ◌%◌, ◌+◌,
  ◌-◌, ◌<◌, ◌∙◌, ◌≡◌, ◌≤◌,
}
use coralswap_core.Oracle.{Observations, Sample, max_twap_window, prune_expired, prune_loop, sample}
use coralswap_core.Oracle.Ring.{IsRing}

abbrev dropped : Observations → Observations
dropped s = record s { head = (s.head + 1) % 24; count = s.count - 1 }

dropped-IsRing : (s : Observations) → IsRing s → 0 < s.count → IsRing (dropped s)
dropped-IsRing s r h = record {
  slots_fit = omega arith;
  live_fit = omega arith;
  head_fits = omega arith;
  no_wrap = λ k. let live = r.no_wrap k in omega arith;
}

sample-dropped : (s : Observations) (i : ℕ) → 0 < s.count → sample (dropped s) i ≡ sample s (i + 1)
unfolding sample
sample-dropped s i h =
    let same : ((s.head + 1) % 24 + i) % 24 ≡ (s.head + (i + 1)) % 24 = omega arith in ground arith

sample-count : (s : Observations) {x : Sample} → sample s 0 ≡ some x → 0 < s.count
unfolding sample
sample-count s h = ground arith

-- `s'` is `s` without its `k` oldest samples, all of them expired, and its oldest one is not.
pub record IsPruned (now k : ℕ) (s s' : Observations) : Type 0 where
  pub still_ring : IsRing s'
  pub fewer : s'.count + k ≡ s.count
  pub shifted : (i : ℕ) → sample s' i ≡ sample s (i + k)
  pub expired :
      (i : ℕ) → i < k → (y : Sample) × (sample s i ≡ some y) × (y.at_ledger + max_twap_window < now)
  pub oldest_live : (y : Sample) → sample s' 0 ≡ some y → now ≤ y.at_ledger + max_twap_window

none-IsPruned : (now : ℕ) (s : Observations) → IsRing s → sample s 0 ≡ none → IsPruned now 0 s s
none-IsPruned now s r e = record {
  still_ring = r;
  fewer = omega arith;
  shifted = λ i. ap (sample s) (omega arith);
  expired = λ i h. absurd (omega arith);
  oldest_live = λ y h. absurd (cc);
}

live-IsPruned :
    (now : ℕ) (s : Observations) (x : Sample)
    → IsRing s
    → sample s 0 ≡ some x
    → now ≤ x.at_ledger + 86_400
    → IsPruned now 0 s s
live-IsPruned now s x r e live = record {
  still_ring = r;
  fewer = omega arith;
  shifted = λ i. ap (sample s) (omega arith);
  expired = λ i h. absurd (omega arith);
  oldest_live = λ y h. ground arith;
}

expired_after :
    (now k : ℕ) (s s' : Observations) (x : Sample)
    → sample s 0 ≡ some x
    → x.at_ledger + 86_400 < now
    → IsPruned now k (dropped s) s'
    → (i : ℕ) → i < k + 1
    → (y : Sample) × (sample s i ≡ some y) × (y.at_ledger + max_twap_window < now)
expired_after now k s s' x e old p zero h = (x, e, old)
expired_after now k s s' x e old p (suc i) h =
    let (y, at_i, gone) = p.expired i (omega arith) in
    let same : suc i ≡ i + 1 = omega arith in
    (y, ap (sample s) same ∙ sym (sample-dropped s i (sample-count s e)) ∙ at_i, gone)

dropped-IsPruned :
    (now k : ℕ) (s s' : Observations) (x : Sample)
    → sample s 0 ≡ some x
    → x.at_ledger + 86_400 < now
    → IsPruned now k (dropped s) s'
    → IsPruned now (k + 1) s s'
dropped-IsPruned now k s s' x e old p =
    let some_live = sample-count s e in
    record {
      still_ring = p.still_ring;
      fewer = let h = p.fewer in omega arith;
      shifted = λ i. p.shifted i ∙ sample-dropped s (i + k) some_live ∙ ap (sample s) (omega arith);
      expired = expired_after now k s s' x e old p;
      oldest_live = p.oldest_live;
    }

prune_loop-IsPruned :
    (fuel now : ℕ) (s : Observations)
    → IsRing s
    → s.count < fuel
    → (k : ℕ) × (s' : Observations) × (prune_loop fuel now s ≡ some s') × IsPruned now k s s'
unfolding prune_loop
prune_loop-IsPruned zero now s r h = absurd (omega arith)
prune_loop-IsPruned (suc fuel) now s r h = elim (Option-cases (sample s 0)) [
  | inl e ↦ (0, s, rw (prune_loop, e) refl, none-IsPruned now s r e)
  | inr (x, e) ↦ elim (Bool-cases (leb now (x.at_ledger + max_twap_window))) [
    | inl live ↦ (0, s, rw (prune_loop, e, live) refl, live-IsPruned now s x r e (ground arith))
    | inr old ↦
        let some_live = sample-count s e in
        let (k, s', done, p) =
          prune_loop-IsPruned fuel now (dropped s) (dropped-IsRing s r some_live) (omega arith) in
        (k + 1, s', rw (prune_loop, e, old) done, dropped-IsPruned now k s s' x e (ground arith) p)
  ]
]

-- On a ring, `prune_expired` ends, and drops exactly the expired samples at its front.
pub prune_expired_lem :
    (now : ℕ) (s : Observations)
    → IsRing s
    → (k : ℕ) × (s' : Observations) × (prune_expired now s ≡ some s') × IsPruned now k s s'
unfolding prune_expired
prune_expired_lem now s r = prune_loop-IsPruned (s.count + 1) now s r (omega arith)
