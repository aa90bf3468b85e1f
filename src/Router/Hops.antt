-- ===== src/Router/Hops.antt =====
-- The first hop of a path and the others.
use coralswap_core.Prelude.{List, [], ap, length, suc, sym, ℕ, ◌∙◌, ◌∷◌, ◌≡◌}
use coralswap_core.Env.{Address}
use coralswap_core.Int.{ℤ}
use coralswap_core.Outcome.{>>=-then, Outcome, err, map_err, ok, ok-injective, trap}
use coralswap_core.Router.Paths.{amounts_out, get_amount_out, hop}
use coralswap_core.Router.State.{Network}

pub map_err-eq-ok :
    {E F A : Type 0} (f : E → F) (m : Outcome E A) {a : A} → map_err f m ≡ ok a → m ≡ ok a
map_err-eq-ok f (ok a) h = cc
map_err-eq-ok f (err e) h = cc
map_err-eq-ok f trap h = cc

module _ {W : Type 0} (n : Network W) (factory : Address) (w : W) where
  -- The amounts that a hop and the hops after it put out.
  pub amounts_out-cons :
      (token_in token_out : Address) (path : List Address) (x : ℤ) {outs : List ℤ}
      → amounts_out n factory w token_in (token_out ∷ path) x ≡ ok outs
      → (q : ℤ × ℤ × ℕ) × (out : ℤ) × (more : List ℤ) × (hop n factory w token_in token_out ≡ ok q)
        × (get_amount_out x q.0 q.1 q.2 ≡ ok out)
        × (amounts_out n factory w token_out path out ≡ ok more)
        × (outs ≡ out ∷ more)
  unfolding amounts_out
  amounts_out-cons token_in token_out path x h =
      >>=-then (hop n factory w token_in token_out) _ h λ q e h0.
        >>=-then (get_amount_out x q.0 q.1 q.2) _ h0 λ out k h1.
          >>=-then (amounts_out n factory w token_out path out) _ h1
            λ more l h2. (q, out, more, e, k, l, sym (ok-injective h2))

  pub length-amounts_out :
      (token_in : Address) (path : List Address) (x : ℤ) {outs : List ℤ}
      → amounts_out n factory w token_in path x ≡ ok outs
      → length outs ≡ length path
  unfolding amounts_out
  length-amounts_out token_in [] x {outs} h = ap (λ (l : List ℤ). length l) (sym (ok-injective h))
  length-amounts_out token_in (token_out ∷ path) x h =
      let (q, out, more, e, bought, later, outs_are) =
        amounts_out-cons token_in token_out path x h in
      let ih = length-amounts_out token_out path out later in
      ap (λ (l : List ℤ). length l) outs_are ∙ ap suc ih
