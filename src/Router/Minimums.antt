-- ===== src/Router/Minimums.antt =====
-- The minimums of the hops, which `get_path_minimums` derives from the minimum of the whole path.
use coralswap_core.Prelude.{
  Bool-cases, List, [], ap, arith, if◌then◌else◌, inl, inr, length, min, subst, suc, sym, true, ℕ,
  ◌↔◌, ◌∙◌, ◌∷◌, ◌≡◌,
}
use coralswap_core.Env.{Address}
use coralswap_core.Int.{leb_ℤ, pos, ℤ}
use coralswap_core.Outcome.{>>=-then, ok, ok-injective}
use coralswap_core.Quote.{quote_input_amount, quote_output_amount}
use coralswap_core.Quote.Input.{quote_input_least}
use coralswap_core.Quote.Output.{quote_output-eq-ok}
use coralswap_core.Router.Covers.{Covers, Covers-reach, last_of_more, last_of_one, reach-Covers}
use coralswap_core.Router.Hops.{amounts_out-cons, length-amounts_out, map_err-eq-ok}
use coralswap_core.Router.Paths.{
  amounts_out, get_amount_in, get_amount_out, get_path_amounts_out, get_path_minimums, hop,
  map_quote_error, minimums,
}
use coralswap_core.Router.State.{Network}
use coralswap_core.Router.Swaps.{last_or, reach}

-- One hop: an amount in buys at least what the next hop needs, so it is at least what that costs.
hop_minimum :
    (x r s current : ℤ) (fee : ℕ) {out next : ℤ}
    → get_amount_out x r s fee ≡ ok out
    → (if leb_ℤ current (pos 0) then ok (pos 0) else get_amount_in current r s fee) ≡ ok next
    → leb_ℤ current out ≡ true
    → leb_ℤ next x ≡ true
unfolding get_amount_out get_amount_in
hop_minimum x r s current fee {out} {next} h k enough =
    let bought = map_err-eq-ok map_quote_error (quote_output_amount x r s fee) h in
    elim (Bool-cases (leb_ℤ current (pos 0))) [
      | inl free ↦
          let (y, r1, s1, ex, er, es, py, pr, ps, pf, eo, pp) =
            quote_output-eq-ok x r s fee bought in
          let at_zero : next ≡ pos 0 = ground arith in ground arith
      | inr needed ↦
          let costs : get_amount_in current r s fee ≡ ok next = rw needed at k in
          let charged = map_err-eq-ok map_quote_error (quote_input_amount current r s fee) costs in
          ((quote_input_least current r s fee charged x bought).0).0 enough
    ]

module _ {W : Type 0} (n : Network W) (factory : Address) (w : W) where
  minimums-cons :
      (token_in token_out : Address) (path : List Address) (min : ℤ) {m : List ℤ × ℤ}
      → minimums n factory w token_in (token_out ∷ path) min ≡ ok m
      → (q : ℤ × ℤ × ℕ) × (mins : List ℤ) × (current : ℤ) × (minimums n factory w token_out path min
          ≡ ok (mins, current))
        × (hop n factory w token_in token_out ≡ ok q)
        × ((if leb_ℤ current (pos 0) then ok (pos 0) else get_amount_in current q.0 q.1 q.2)
            ≡ ok m.1)
        × (m.0 ≡ current ∷ mins)
  unfolding minimums
  minimums-cons token_in token_out path min {m} h =
      >>=-then (minimums n factory w token_out path min) _ h λ r e h0.
        >>=-then (hop n factory w token_in token_out) _ h0 λ q k h1.
          >>=-then (if leb_ℤ r.1 (pos 0) then ok (pos 0) else get_amount_in r.1 q.0 q.1 q.2) _ h1
            λ next l h2.
              let done = ok-injective h2 in
              (
                q,
                r.0,
                r.1,
                e,
                k,
                l ∙ ap (λ (p : List ℤ × ℤ). ok p.1) done,
                ap (λ (p : List ℤ × ℤ). p.0) (sym done),
              )

  -- With the last amount at the minimum, every amount is, and the input is at least what the first
  -- hop needs.
  covered :
      (token_in : Address) (path : List Address) (x min : ℤ) {outs : List ℤ} {m : List ℤ × ℤ}
      → amounts_out n factory w token_in path x ≡ ok outs
      → minimums n factory w token_in path min ≡ ok m
      → leb_ℤ min (last_or x outs) ≡ true
      → (leb_ℤ m.1 x ≡ true) × Covers outs m.0
  unfolding amounts_out minimums
  covered token_in [] x min {outs} {m} h k enough =
      let none_out : [] ≡ outs = ok-injective h in
      let start : ([], min) ≡ m = ok-injective k in
      (
        subst (λ (p : List ℤ × ℤ). leb_ℤ p.1 x ≡ true) start
            (subst (λ l. leb_ℤ min (last_or x l) ≡ true) (sym none_out) enough),
        subst (λ (p : List ℤ × ℤ). Covers outs p.0) start (subst (λ l. Covers l []) none_out tt),
      )
  covered token_in (token_out ∷ path) x min {outs} {m} h k enough =
      let (q, out, more, e, bought, later, outs_are) =
        amounts_out-cons n factory w token_in token_out path x h in
      let (q', mins, current, earlier, e', costs, mins_are) =
        minimums-cons token_in token_out path min k in
      let same : q' ≡ q = ok-injective (sym e' ∙ e) in
      let enough' : leb_ℤ min (last_or out more) ≡ true =
        subst (λ l. leb_ℤ min (last_or x l) ≡ true) outs_are enough in
      let (reaches, rest) = covered token_out path out min later earlier enough' in
      let costs' =
        subst
          (λ (p : ℤ × ℤ × ℕ).
            (if leb_ℤ current (pos 0) then ok (pos 0) else get_amount_in current p.0 p.1 p.2)
            ≡ ok m.1)
          same costs in
      let covers : Covers (out ∷ more) (current ∷ mins) = (reaches, rest) in
      (
        hop_minimum x q.0 q.1 current q.2 bought costs' reaches,
        subst (λ l. Covers l m.0) (sym outs_are)
            (subst (λ l. Covers (out ∷ more) l) (sym mins_are) covers),
      )

  -- The minimum of the last hop is the minimum of the path.
  last_minimum :
      (token_in token_out : Address) (path : List Address) (min d : ℤ) {m : List ℤ × ℤ}
      (outs : List ℤ)
      → minimums n factory w token_in (token_out ∷ path) min ≡ ok m
      → Covers outs m.0
      → leb_ℤ min (last_or d outs) ≡ true
  unfolding minimums
  last_minimum token_in token_out [] min d {m} outs k covers =
      let (q, mins, current, earlier, e, costs, mins_are) =
        minimums-cons token_in token_out [] min k in
      let start : ◌≡◌ {A = List ℤ × ℤ} ([], min) (mins, current) = ok-injective earlier in
      let only : Covers outs (current ∷ mins) = subst (λ l. Covers outs l) mins_are covers in
      last_of_one min d outs (subst (λ (p : List ℤ × ℤ). Covers outs (p.1 ∷ p.0)) (sym start) only)
  last_minimum token_in token_out (next ∷ path) min d {m} outs k covers =
      let (q, mins, current, earlier, e, costs, mins_are) =
        minimums-cons token_in token_out (next ∷ path) min k in
      last_of_more min d outs current mins (subst (λ l. Covers outs l) mins_are covers)
        (λ more d' c. last_minimum token_out next path min d' more earlier c)

  length-minimums :
      (token_in : Address) (path : List Address) (min : ℤ) {m : List ℤ × ℤ}
      → minimums n factory w token_in path min ≡ ok m
      → length m.0 ≡ length path
  unfolding minimums
  length-minimums token_in [] min {m} k = ap (λ (p : List ℤ × ℤ). length p.0) (sym (ok-injective k))
  length-minimums token_in (token_out ∷ path) min k =
      let (q, mins, current, earlier, e, costs, mins_are) =
        minimums-cons token_in token_out path min k in
      let ih = length-minimums token_out path min earlier in
      ap (λ (l : List ℤ). length l) mins_are ∙ ap suc ih

  -- The last of the amounts does not depend on the default.
  enough_anywhere :
      (token_in token_out : Address) (path : List Address) (x min : ℤ) {outs : List ℤ}
      → amounts_out n factory w token_in (token_out ∷ path) x ≡ ok outs
      → leb_ℤ min (last_or (pos 0) outs) ≡ true
      → leb_ℤ min (last_or x outs) ≡ true
  enough_anywhere token_in token_out path x min h enough =
      let (q, out, more, e, bought, later, outs_are) =
        amounts_out-cons n factory w token_in token_out path x h in
      subst (λ l. leb_ℤ min (last_or x l) ≡ true) (sym outs_are)
        (subst (λ l. leb_ℤ min (last_or (pos 0) l) ≡ true) outs_are enough)

  -- Where both walks along a path succeed, every hop reaches its minimum exactly when the last amount
  -- reaches the minimum of the path.
  pub hop_checks_follow :
      (path : List Address) (amount_in min : ℤ) {amounts mins : List ℤ}
      → get_path_amounts_out n factory w path amount_in ≡ ok amounts
      → get_path_minimums n factory w path min ≡ ok mins
      → (leb_ℤ min (last_or (pos 0) amounts) ≡ true) ↔ (reach amounts mins ≡ ok tt)
  unfolding get_path_amounts_out get_path_minimums
  hop_checks_follow [] amount_in min h k = absurd (cc)
  hop_checks_follow (a ∷ []) amount_in min h k = absurd (cc)
  hop_checks_follow (a ∷ b ∷ path) amount_in min {amounts} {mins} h k =
      >>=-then (minimums n factory w a (b ∷ path) min) _ k λ m l done.
        let these : m.0 ≡ mins = ok-injective done in
        let long : length amounts ≡ length mins =
          length-amounts_out n factory w a (b ∷ path) amount_in h
          ∙ sym (length-minimums a (b ∷ path) min l)
          ∙ ap (λ (t : List ℤ). length t) these in
        (
          λ enough.
              let at_first = enough_anywhere a b path amount_in min h enough in
              Covers-reach amounts mins (
                subst (λ t. Covers amounts t) these
                  (covered a (b ∷ path) amount_in min h l at_first).1),
          λ reached.
              last_minimum a b path min (pos 0) amounts l (
                subst (λ t. Covers amounts t) (sym these) (reach-Covers amounts mins long reached)),
        )
