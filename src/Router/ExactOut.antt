-- ===== src/Router/ExactOut.antt =====
-- The input that a swap to an exact output charges (contracts/router/src/lib.rs).
use coralswap_core.Prelude.{
  List, Option, [], ap, false, length, max, some, subst, sym, true, ℕ, ◌↔◌, ◌∙◌, ◌∷◌, ◌≡◌, ◌≤◌,
}
use coralswap_core.Env.{Address, Env}
use coralswap_core.Errors.{RouterError}
use coralswap_core.Int.{leb_ℤ, ltb_ℤ, pos, ℤ}
use coralswap_core.Int.Laws.{not_ltb_ℤ}
use coralswap_core.Outcome.{
  >>=-then, ok, ok-injective, ok_or, ok_or-eq-ok, raise_if, raise_if-eq-ok, require, require-eq-ok,
}
use coralswap_core.Quote.{quote_input_amount, quote_output_amount}
use coralswap_core.Quote.Input.{quote_input_least}
use coralswap_core.Router.Guards.{IsInTime, check_deadline-eq-ok, check_hops-eq-ok}
use coralswap_core.Router.Hops.{amounts_out-cons, map_err-eq-ok}
use coralswap_core.Router.Paths.{
  amounts_in, amounts_out, get_amount_in, get_amount_out, get_path_amounts_out, hop,
  map_quote_error,
}
use coralswap_core.Router.State.{Network, RouterWorld}
use coralswap_core.Router.Swaps.{
  check_deadline, check_hops, last_or, required_in, run_exact_out, swap_tokens_for_exact_tokens,
}

-- One hop: to buy what the next hop needs is to pay its charge.
hop_charge :
    (x r s current : ℤ) (fee : ℕ) {out charge : ℤ}
    → get_amount_out x r s fee ≡ ok out
    → get_amount_in current r s fee ≡ ok charge
    → (leb_ℤ current out ≡ true) ↔ (leb_ℤ charge x ≡ true)
unfolding get_amount_out get_amount_in
hop_charge x r s current fee h k =
    let bought = map_err-eq-ok map_quote_error (quote_output_amount x r s fee) h in
    let charged = map_err-eq-ok map_quote_error (quote_input_amount current r s fee) k in
    (quote_input_least current r s fee charged x bought).0

module _ {W : Type 0} (n : Network W) (factory : Address) (w : W) where
  -- Along a path: an input buys at least the wanted output exactly when it is at least the charge.
  path_charge :
      (token_in : Address) (path : List Address) (b wanted : ℤ) {outs : List ℤ} {c : List ℤ × ℤ}
      → amounts_in n factory w token_in path wanted ≡ ok c
      → amounts_out n factory w token_in path b ≡ ok outs
      → (leb_ℤ wanted (last_or b outs) ≡ true) ↔ (leb_ℤ c.1 b ≡ true)
  unfolding amounts_in amounts_out
  path_charge token_in [] b wanted {outs} {c} h k =
      let none_out : [] ≡ outs = ok-injective k in
      let start : ([], wanted) ≡ c = ok-injective h in
      subst (λ (p : List ℤ × ℤ). (leb_ℤ wanted (last_or b outs) ≡ true) ↔ (leb_ℤ p.1 b ≡ true))
        start
        (subst (λ l. (leb_ℤ wanted (last_or b l) ≡ true) ↔ (leb_ℤ wanted b ≡ true)) none_out
          (λ e. e, λ e. e))
  path_charge token_in (token_out ∷ path) b wanted {outs} {c} h k =
      let (q, out, more, e, bought, later, outs_are) =
        amounts_out-cons n factory w token_in token_out path b k in
      >>=-then (amounts_in n factory w token_out path wanted) _ h λ d e0 h0.
        >>=-then (hop n factory w token_in token_out) _ h0 λ q' e1 h1.
          >>=-then (get_amount_in d.1 q'.0 q'.1 q'.2) _ h1 λ needed e2 h2.
            let same : q' ≡ q = ok-injective (sym e1 ∙ e) in
            let costs =
              subst (λ (p : ℤ × ℤ × ℕ). get_amount_in d.1 p.0 p.1 p.2 ≡ ok needed) same e2 in
            let first = hop_charge b q.0 q.1 d.1 q.2 bought costs in
            let rest = path_charge token_out path out wanted e0 later in
            let is_needed : needed ≡ c.1 = ap (λ (p : List ℤ × ℤ). p.1) (ok-injective h2) in
            subst (λ x. (leb_ℤ wanted (last_or b outs) ≡ true) ↔ (leb_ℤ x b ≡ true)) is_needed
              (subst (λ l. (leb_ℤ wanted (last_or b l) ≡ true) ↔ (leb_ℤ needed b ≡ true))
                (sym outs_are) (λ enough. first.0 (rest.0 enough), λ paid. rest.1 (first.1 paid)))

whole_path_charge :
    {W : Type 0} (n : Network W) (factory : Address) (w : W) (path : List Address) (b wanted : ℤ)
    {outs : List ℤ} {c : List ℤ × ℤ}
    → required_in n factory w path wanted ≡ ok c
    → get_path_amounts_out n factory w path b ≡ ok outs
    → (leb_ℤ wanted (last_or b outs) ≡ true) ↔ (leb_ℤ c.1 b ≡ true)
unfolding get_path_amounts_out
whole_path_charge n factory w [] b wanted h k = absurd (cc)
whole_path_charge n factory w (a ∷ []) b wanted h k = absurd (cc)
whole_path_charge n factory w (a ∷ a' ∷ path) b wanted h k =
    path_charge n factory w a (a' ∷ path) b wanted h k

-- What a swap to an exact output that ends with `r` has checked and done: `charge` is what the user
-- pays.
pub record IsExactOut {W : Type 0} (n : Network W) (env : Env) (wanted max : ℤ)
    (path : List Address) (to : Address) (deadline : ℕ) (limit : Option ℕ) (w : RouterWorld W)
    (r : List ℤ × RouterWorld W) : Type 0 where
  pub in_time : IsInTime env deadline limit
  pub authorized : env.authorized to ≡ true
  pub some_wanted : leb_ℤ wanted (pos 0) ≡ false
  pub hops : (2 ≤ length path) × (length path ≤ 4)
  pub factory : Address
  pub at_factory : w.store.factory ≡ some factory
  pub charge : ℤ
  pub charged : r.0 ≡ charge ∷ []
  pub at_most : leb_ℤ charge max ≡ true
  pub least :
      (b : ℤ) (outs : List ℤ)
      → get_path_amounts_out n factory w.network path b ≡ ok outs
      → (leb_ℤ wanted (last_or b outs) ≡ true) ↔ (leb_ℤ charge b ≡ true)
  pub required : List ℤ
  pub executed :
      run_exact_out n factory env to path required charge wanted w.network ≡ ok r.1.network
  pub same_store : r.1.store ≡ w.store

module _ {W : Type 0} (n : Network W) where
  -- A swap to an exact output that succeeds is in time, authorized by the payer, along 2 to 4 tokens,
  -- and for a positive output. It charges at most the maximum, and it charges the least: an input
  -- whose quote along the path succeeds buys at least the output exactly when it is at least the
  -- charge. The hops are executed with that charge, and the router's storage stays.
  pub swap_charges_least :
      (env : Env) (wanted max : ℤ) (path : List Address) (to : Address) (deadline : ℕ)
      (limit : Option ℕ) (w : RouterWorld W) {r : List ℤ × RouterWorld W}
      → swap_tokens_for_exact_tokens n env wanted max path to deadline limit w ≡ ok r
      → IsExactOut n env wanted max path to deadline limit w r
  unfolding swap_tokens_for_exact_tokens
  swap_charges_least env wanted max path to deadline limit w {r} h =
      >>=-then (check_deadline env deadline limit) _ h λ u0 e0 h0.
        >>=-then (raise_if (leb_ℤ wanted (pos 0)) RouterError.zero_amount) _ h0 λ u1 e1 h1.
          >>=-then (check_hops path) _ h1 λ u2 e2 h2.
            >>=-then (ok_or w.store.factory RouterError.pair_not_found) _ h2 λ f e3 h3.
              >>=-then (required_in n f w.network path wanted) _ h3 λ c e4 h4.
                >>=-then (raise_if (ltb_ℤ max c.1) RouterError.excessive_input_amount) _ h4
                  λ u5 e5 h5. >>=-then (require (env.authorized to)) _ h5 λ u6 e6 h6.
                    >>=-then (run_exact_out n f env to path c.0 c.1 wanted w.network) _ h6
                      λ network e7 h7.
                        let done = ok-injective h7 in
                        record {
                          in_time = check_deadline-eq-ok env deadline limit e0;
                          authorized = require-eq-ok _ e6;
                          some_wanted = raise_if-eq-ok _ RouterError.zero_amount e1;
                          hops = check_hops-eq-ok path e2;
                          factory = f;
                          at_factory = ok_or-eq-ok _ RouterError.pair_not_found e3;
                          charge = c.1;
                          charged = ap (λ (p : List ℤ × RouterWorld W). p.0) (sym done);
                          at_most =
                              not_ltb_ℤ max c.1
                                (raise_if-eq-ok _ RouterError.excessive_input_amount e5);
                          least = λ b outs k. whole_path_charge n f w.network path b wanted e4 k;
                          required = c.0;
                          executed = e7 ∙ ap (λ (p : List ℤ × RouterWorld W). ok p.1.network) done;
                          same_store = ap (λ (p : List ℤ × RouterWorld W). p.1.store) (sym done);
                        }
