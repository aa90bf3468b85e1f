-- ===== src/Router/BestRoute.antt =====
-- What `get_best_path` returns: a route with its quote, and none of the candidates is better.
use coralswap_core.Prelude.{
  Bool-cases, List, [], ap, arith, inl, inr, length, refl, subst, sym, true, ℕ, ◌++◌, ◌==◌, ◌∙◌,
  ◌∷◌, ◌≡◌, ◌≤◌,
}
use coralswap_core.Env.{Address}
use coralswap_core.Factory.State.{mem}
use coralswap_core.Int.{pos, ℤ}
use coralswap_core.Outcome.{>>=-then, ok, ◌>>=◌}
use coralswap_core.Router.BestPath.{one_hop, three_hops, two_hops}
use coralswap_core.Router.Paths.{
  amounts_out, get_amount_out, get_pair_address, get_pair_reserves_and_fee, get_path_amounts_out,
  hop,
}
use coralswap_core.Router.State.{Network}
use coralswap_core.Router.Swaps.{last_or}

-- Every token of the one list is in the other.
abbrev pub Within : List Address → List Address → Type 0
Within xs ys = (h : Address) → mem h xs ≡ true → mem h ys ≡ true

pub Within-head : (x : Address) (xs ys : List Address) → Within (x ∷ xs) ys → mem x ys ≡ true
Within-head x xs ys within = within x (ground arith)

pub Within-tail : (x : Address) (xs ys : List Address) → Within (x ∷ xs) ys → Within xs ys
Within-tail x xs ys within h m = within h (ground arith)

Within-one : (x : Address) (ys : List Address) → mem x ys ≡ true → Within (x ∷ []) ys
Within-one x ys in_list h m =
    let same : h ≡ x = ground arith in subst (λ k. mem k ys ≡ true) (sym same) in_list

Within-two :
    (x y : Address) (ys : List Address) → mem x ys ≡ true → mem y ys ≡ true → Within (x ∷ y ∷ []) ys
Within-two x y ys first second h m = elim (Bool-cases (h == x)) [
  | inl at_first ↦ let same : h ≡ x = ground arith in subst (λ k. mem k ys ≡ true) (sym same) first
  | inr later ↦ Within-one y ys second h (ground arith)
]

module _ {W : Type 0} (n : Network W) (factory : Address) (w : W) where
  hop-eq-ok :
      (a b : Address) {p : Address} {q : ℤ × ℤ × ℕ}
      → get_pair_address n factory w a b ≡ ok p
      → get_pair_reserves_and_fee n factory w p a b ≡ ok q
      → hop n factory w a b ≡ ok q
  hop-eq-ok a b e k = ap (λ o. o >>= λ pair. get_pair_reserves_and_fee n factory w pair a b) e ∙ k

  amounts_out-step :
      (a b : Address) (path : List Address) (x : ℤ) {q : ℤ × ℤ × ℕ} {out : ℤ} {more : List ℤ}
      → hop n factory w a b ≡ ok q
      → get_amount_out x q.0 q.1 q.2 ≡ ok out
      → amounts_out n factory w b path out ≡ ok more
      → amounts_out n factory w a (b ∷ path) x ≡ ok (out ∷ more)
  unfolding amounts_out
  amounts_out-step a b path x {q} {out} e k l =
      ap
        (λ o. o >>= λ q. get_amount_out x q.0 q.1 q.2 >>= λ out.
          amounts_out n factory w b path out >>= λ more. ok (out ∷ more))
        e
      ∙ ap (λ o. o >>= λ out. amounts_out n factory w b path out >>= λ more. ok (out ∷ more)) k
      ∙ ap (λ o. o >>= λ more. ok (out ∷ more)) l

  -- A path between the two tokens over at most two of the hubs, with the amount that its quotes end
  -- with.
  pub record IsRoute (hubs : List Address) (token_in token_out : Address) (x : ℤ)
      (path : List Address) (out : ℤ) : Type 0 where
    pub middle : List Address
    pub ends : path ≡ token_in ∷ (middle ++ token_out ∷ [])
    pub few_hubs : length middle ≤ 2
    pub over_hubs : Within middle hubs
    pub amounts : List ℤ
    pub quoted : get_path_amounts_out n factory w path x ≡ ok amounts
    pub last_is_out : last_or (pos 0) amounts ≡ out

  pub one_hop-IsRoute :
      (hubs : List Address) (a b : Address) (x out : ℤ)
      → one_hop n factory w a b x ≡ ok out
      → IsRoute hubs a b x (a ∷ b ∷ []) out
  unfolding one_hop get_path_amounts_out amounts_out
  one_hop-IsRoute hubs a b x out h = >>=-then (hop n factory w a b) _ h λ q e k. record {
    middle = [];
    ends = refl;
    few_hubs = omega arith;
    over_hubs = λ h m. absurd (cc);
    amounts = out ∷ [];
    quoted = amounts_out-step a b [] x e k refl;
    last_is_out = refl;
  }

  pub two_hops-IsRoute :
      (hubs : List Address) (a h b : Address) (x out : ℤ)
      → mem h hubs ≡ true
      → two_hops n factory w a h b x ≡ ok out
      → IsRoute hubs a b x (a ∷ h ∷ b ∷ []) out
  unfolding two_hops get_path_amounts_out amounts_out
  two_hops-IsRoute hubs a h b x out at_h run =
      >>=-then (get_pair_address n factory w a h) _ run λ p1 e1 k1.
        >>=-then (get_pair_address n factory w h b) _ k1 λ p2 e2 k2.
          >>=-then (get_pair_reserves_and_fee n factory w p1 a h) _ k2 λ q1 e3 k3.
            >>=-then (get_pair_reserves_and_fee n factory w p2 h b) _ k3 λ q2 e4 k4.
              >>=-then (get_amount_out x q1.0 q1.1 q1.2) _ k4 λ mid e5 k5. record {
                middle = h ∷ [];
                ends = refl;
                few_hubs = omega arith;
                over_hubs = Within-one h hubs at_h;
                amounts = mid ∷ out ∷ [];
                quoted =
                    amounts_out-step a h (b ∷ []) x (hop-eq-ok a h e1 e3) e5
                      (amounts_out-step h b [] mid (hop-eq-ok h b e2 e4) k5 refl);
                last_is_out = refl;
              }

  pub three_hops-IsRoute :
      (hubs : List Address) (a h i b : Address) (x out : ℤ)
      → mem h hubs ≡ true
      → mem i hubs ≡ true
      → three_hops n factory w a h i b x ≡ ok out
      → IsRoute hubs a b x (a ∷ h ∷ i ∷ b ∷ []) out
  unfolding three_hops get_path_amounts_out amounts_out
  three_hops-IsRoute hubs a h i b x out at_h at_i run =
      >>=-then (get_pair_address n factory w a h) _ run λ p1 e1 k1.
        >>=-then (get_pair_address n factory w h i) _ k1 λ p2 e2 k2.
          >>=-then (get_pair_address n factory w i b) _ k2 λ p3 e3 k3.
            >>=-then (get_pair_reserves_and_fee n factory w p1 a h) _ k3 λ q1 e4 k4.
              >>=-then (get_pair_reserves_and_fee n factory w p2 h i) _ k4 λ q2 e5 k5.
                >>=-then (get_pair_reserves_and_fee n factory w p3 i b) _ k5 λ q3 e6 k6.
                  >>=-then (get_amount_out x q1.0 q1.1 q1.2) _ k6 λ mid1 e7 k7.
                    >>=-then (get_amount_out mid1 q2.0 q2.1 q2.2) _ k7 λ mid2 e8 k8. record {
                      middle = h ∷ i ∷ [];
                      ends = refl;
                      few_hubs = omega arith;
                      over_hubs = Within-two h i hubs at_h at_i;
                      amounts = mid1 ∷ mid2 ∷ out ∷ [];
                      quoted = amounts_out-step a h (i ∷ b ∷ []) x (hop-eq-ok a h e1 e4) e7 (
                          amounts_out-step h i (b ∷ []) mid1 (hop-eq-ok h i e2 e5) e8
                            (amounts_out-step i b [] mid2 (hop-eq-ok i b e3 e6) k8 refl));
                      last_is_out = refl;
                    }
