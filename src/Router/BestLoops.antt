-- ===== src/Router/BestLoops.antt =====
-- No candidate of `get_best_path` is better than the route that it returns.
use coralswap_core.Prelude.{
  List, [], ap, arith, false, get_elem?, inl, inr, refl, some, subst, true, ℕ, ◌==◌, ◌||◌, ◌∷◌, ◌≡◌,
}
use coralswap_core.Env.{Address}
use coralswap_core.Errors.{RouterError}
use coralswap_core.Factory.State.{mem}
use coralswap_core.Int.{leb_ℤ, ltb_ℤ, pos, ℤ}
use coralswap_core.Outcome.{
  >>=-then, ok, ok-injective, ok_or, ok_or-eq-ok, raise_if, raise_if-eq-ok,
}
use coralswap_core.Router.BestPath.{
  Best, get_best_path, is_end, no_best, offer, one_hop, three_hops, try_first, try_hubs, two_hops,
}
use coralswap_core.Router.BestRoute.{IsRoute, one_hop-IsRoute}
use coralswap_core.Router.Candidates.{Beats, Beats-later, offer-Improves}
use coralswap_core.Router.HubLoops.{try_first-Improves, try_hubs-Improves}
use coralswap_core.Router.State.{Network, RouterWorld}

-- A route that no candidate beats: the direct one, over one hub, and over two hubs at different
-- places of the list, the hubs that are ends of the route left out.
pub record IsBestRoute {W : Type 0} (n : Network W) (factory : Address) (w : W)
    (hubs : List Address) (a b : Address) (x : ℤ) (best : Best) : Type 0 where
  pub route : IsRoute n factory w hubs a b x best.path best.out
  pub over_direct : Beats best (one_hop n factory w a b x)
  pub over_one :
      (hub : Address)
      → mem hub hubs ≡ true
      → is_end a b hub ≡ false
      → Beats best (two_hops n factory w a hub b x)
  pub over_two :
      (k : ℕ) (hub_i : Address)
      → get_elem? hubs k ≡ some hub_i
      → (m : ℕ) (hub_j : Address) → get_elem? hubs m ≡ some hub_j
      → (k == m || is_end a b hub_i || is_end a b hub_j) ≡ false
      → Beats best (three_hops n factory w a hub_i hub_j b x)

-- A path that the search returns leads from the one token to the other over at most two of
-- the router's hubs, with the amount that the quotes along it end with, and no candidate whose quotes succeed pays more.
pub best_path_is_best :
    {W : Type 0} (n : Network W) (a b : Address) (x : ℤ) (w : RouterWorld W) {path : List Address}
    {out : ℤ}
    → get_best_path n a b x w ≡ ok (path, out)
    → (factory : Address) × (w.store.factory ≡ some factory)
      × IsBestRoute n factory w.network w.store.hubs a b x (record { path = path; out = out })
unfolding get_best_path
best_path_is_best n a b x w {path} {out} h =
    >>=-then (raise_if (a == b) RouterError.identical_tokens) _ h λ u0 e0 h0.
      >>=-then (raise_if (leb_ℤ x (pos 0)) RouterError.zero_amount) _ h0 λ u1 e1 h1.
        >>=-then (ok_or w.store.factory RouterError.pair_not_found) _ h1 λ f e2 h2.
          >>=-then (offer (a ∷ b ∷ []) (one_hop n f w.network a b x) no_best) _ h2 λ direct e3 h3.
            >>=-then (try_hubs n f w.network a b x w.store.hubs direct) _ h3 λ via_one e4 h4.
              >>=-then (try_first n f w.network a b x w.store.hubs 0 w.store.hubs via_one) _ h4
                λ best e5 h5.
                  >>=-then (raise_if (ltb_ℤ best.out (pos 0)) RouterError.pair_not_found) _ h5
                    λ u6 e6 h6.
                      let hubs = w.store.hubs in
                      let R = IsRoute n f w.network hubs a b x in
                      let c = one_hop n f w.network a b x in
                      let (i1, d1) =
                        offer-Improves R (a ∷ b ∷ []) c no_best e3
                          (one_hop-IsRoute n f w.network hubs a b x) (inl refl) in
                      let (i2, d2) =
                        try_hubs-Improves n f w.network hubs a b x hubs direct (λ h m. m) e4 i1.0 in
                      let (i3, d3) =
                        try_first-Improves n f w.network hubs a b x hubs 0 hubs via_one (λ h m. m)
                          (λ h m. m) e5 i2.0 in
                      let is_last : record { path = best.path; out = best.out }
                          ≡ record { path = path; out = out } =
                        ap (λ (p : List Address × ℤ). record { path = p.0; out = p.1 })
                          (ok-injective h6) in
                      let found = raise_if-eq-ok _ RouterError.pair_not_found e6 in
                      (
                        f,
                        ok_or-eq-ok _ RouterError.pair_not_found e2,
                        subst (λ (t : Best). IsBestRoute n f w.network w.store.hubs a b x t) is_last
                            (record {
                              route = elim i3.0 [ inl nothing ↦ absurd (ground arith) | inr r ↦ r ];
                              over_direct =
                                  Beats-later R via_one best c
                                    (Beats-later R direct via_one c d1 i2) i3;
                              over_one = λ hub at_hub k.
                                  Beats-later R via_one best (two_hops n f w.network a hub b x)
                                    (d2 hub at_hub k) i3;
                              over_two = λ k hub_i at_i m hub_j at_j skipped.
                                  d3 k hub_i at_i m hub_j at_j (
                                    subst
                                      (λ z.
                                        (z == m || is_end a b hub_i || is_end a b hub_j) ≡ false)
                                      (omega arith) skipped);
                            }),
                      )
