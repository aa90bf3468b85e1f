-- ===== src/Router/HubLoops.antt =====
-- What the loops of `get_best_path` over the hubs keep.
use coralswap_core.Prelude.{
  List, [], arith, false, get_elem?, get_elem?-cases, if◌then◌else◌, inl, inr, some, subst, sym,
  true, ℕ, ◌+◌, ◌==◌, ◌||◌, ◌∷◌, ◌≡◌,
}
use coralswap_core.Env.{Address}
use coralswap_core.Factory.Quorum.{member_cases}
use coralswap_core.Factory.State.{mem}
use coralswap_core.Int.{ℤ}
use coralswap_core.Outcome.{>>=-then, ok, ok-injective}
use coralswap_core.Router.BestPath.{
  Best, is_end, offer, three_hops, try_first, try_hubs, try_second, two_hops,
}
use coralswap_core.Router.BestRoute.{
  IsRoute, Within, Within-head, Within-tail, three_hops-IsRoute, two_hops-IsRoute,
}
use coralswap_core.Router.Candidates.{
  Beats, Beats-later, Improves, Improves-refl, Improves-trans, IsFound, round-Improves,
}
use coralswap_core.Router.State.{Network}

-- The best route so far, with what is known of it.
module _ {W : Type 0} (n : Network W) (factory : Address) (w : W) (known : List Address)
    (a b : Address) (x : ℤ) where
  abbrev Route : List Address → ℤ → Type 0
  Route = IsRoute n factory w known a b x

  pub try_hubs-Improves :
      (hubs : List Address) (best : Best) {next : Best}
      → Within hubs known
      → try_hubs n factory w a b x hubs best ≡ ok next
      → IsFound Route best
      → Improves Route best next
        × ((h : Address)
            → mem h hubs ≡ true
            → is_end a b h ≡ false
            → Beats next (two_hops n factory w a h b x))
  unfolding try_hubs
  try_hubs-Improves [] best {next} within h found = (
    subst (λ t. Improves Route best t) (ok-injective h) (Improves-refl Route best found),
    λ k m. absurd (cc),
  )
  try_hubs-Improves (hub ∷ hubs) best {next} within h found =
      >>=-then
        (if is_end a b hub
          then ok best
          else offer (a ∷ hub ∷ b ∷ []) (two_hops n factory w a hub b x) best)
        _ h
        λ t e rest.
          let (improves, beats) =
            round-Improves Route (is_end a b hub) (a ∷ hub ∷ b ∷ [])
              (two_hops n factory w a hub b x) best e
              (λ out.
                two_hops-IsRoute n factory w known a hub b x out
                  (Within-head hub hubs known within))
              found in
          let (improves', beats') =
            try_hubs-Improves hubs t (Within-tail hub hubs known within) rest improves.0 in
          (
            Improves-trans Route best t next improves improves',
            λ k m not_end. elim (member_cases k hub hubs m) [
              | inl same ↦
                  subst (λ i. Beats next (two_hops n factory w a i b x)) (sym same)
                    (Beats-later Route t next (two_hops n factory w a hub b x)
                      (beats (subst (λ i. is_end a b i ≡ false) same not_end)) improves')
              | inr later ↦ beats' k later not_end
            ],
          )

  try_second-Improves :
      (i : ℕ) (hub_i : Address) (j : ℕ) (hubs : List Address) (best : Best) {next : Best}
      → mem hub_i known ≡ true
      → Within hubs known
      → try_second n factory w a b x i hub_i j hubs best ≡ ok next
      → IsFound Route best
      → Improves Route best next
        × ((k : ℕ) (hub_j : Address)
            → get_elem? hubs k ≡ some hub_j
            → (i == j + k || is_end a b hub_i || is_end a b hub_j) ≡ false
            → Beats next (three_hops n factory w a hub_i hub_j b x))
  unfolding try_second
  try_second-Improves i hub_i j [] best {next} at_i within h found = (
    subst (λ t. Improves Route best t) (ok-injective h) (Improves-refl Route best found),
    λ k hub_j m. absurd (cc),
  )
  try_second-Improves i hub_i j (hub ∷ hubs) best {next} at_i within h found =
      let skip = i == j || is_end a b hub_i || is_end a b hub in
      let path = a ∷ hub_i ∷ hub ∷ b ∷ [] in
      let c = three_hops n factory w a hub_i hub b x in
      >>=-then (if skip then ok best else offer path c best) _ h λ t e rest.
        let (improves, beats) =
          round-Improves Route skip path c best e
            (λ out.
              three_hops-IsRoute n factory w known a hub_i hub b x out at_i
                (Within-head hub hubs known within))
            found in
        let start : j + 0 ≡ j = omega arith in
        let one_more : (k : ℕ) → j + (k + 1) ≡ j + 1 + k = λ k. omega arith in
        let Q : ℕ → Address → Type 0 = λ k hub_j.
          (i == j + k || is_end a b hub_i || is_end a b hub_j) ≡ false
          → Beats next (three_hops n factory w a hub_i hub_j b x) in
        let (improves', beats') =
          try_second-Improves i hub_i (j + 1) hubs t at_i (Within-tail hub hubs known within) rest
            improves.0 in
        (
          Improves-trans Route best t next improves improves',
          get_elem?-cases Q hub hubs
              (λ k.
                Beats-later Route t next c
                  (beats
                    (subst (λ m. (i == m || is_end a b hub_i || is_end a b hub) ≡ false) start k))
                  improves')
              (λ k y m skipped. beats' k y m (
                subst (λ z. (i == z || is_end a b hub_i || is_end a b y) ≡ false) (one_more k)
                  skipped)),
        )

  pub try_first-Improves :
      (all : List Address) (i : ℕ) (hubs : List Address) (best : Best) {next : Best}
      → Within all known
      → Within hubs known
      → try_first n factory w a b x all i hubs best ≡ ok next
      → IsFound Route best
      → Improves Route best next
        × ((k : ℕ) (hub_i : Address)
            → get_elem? hubs k ≡ some hub_i
            → (m : ℕ) (hub_j : Address) → get_elem? all m ≡ some hub_j
            → (i + k == m || is_end a b hub_i || is_end a b hub_j) ≡ false
            → Beats next (three_hops n factory w a hub_i hub_j b x))
  unfolding try_first
  try_first-Improves all i [] best {next} all_known within h found = (
    subst (λ t. Improves Route best t) (ok-injective h) (Improves-refl Route best found),
    λ k hub_j m. absurd (cc),
  )
  try_first-Improves all i (hub_i ∷ hubs) best {next} all_known within h found =
      >>=-then (try_second n factory w a b x i hub_i 0 all best) _ h λ t e rest.
        let (improves, beats) =
          try_second-Improves i hub_i 0 all best (Within-head hub_i hubs known within) all_known e
            found in
        let (improves', beats') =
          try_first-Improves all (i + 1) hubs t all_known (Within-tail hub_i hubs known within) rest
            improves.0 in
        let start : i + 0 ≡ i = omega arith in
        let from_zero : (m : ℕ) → m ≡ 0 + m = λ m. omega arith in
        let one_more : (k : ℕ) → i + (k + 1) ≡ i + 1 + k = λ k. omega arith in
        let Q : ℕ → Address → Type 0 = λ k hub.
          (m : ℕ) (hub_j : Address)
          → get_elem? all m ≡ some hub_j
          → (i + k == m || is_end a b hub || is_end a b hub_j) ≡ false
          → Beats next (three_hops n factory w a hub hub_j b x) in
        (
          Improves-trans Route best t next improves improves',
          get_elem?-cases Q hub_i hubs
              (λ m hub_j at_m k.
                Beats-later Route t next (three_hops n factory w a hub_i hub_j b x)
                  (beats m hub_j at_m (
                    subst (λ z. (i == z || is_end a b hub_i || is_end a b hub_j) ≡ false)
                      (from_zero m)
                      (subst (λ z. (z == m || is_end a b hub_i || is_end a b hub_j) ≡ false) start
                        k)))
                  improves')
              (λ k hub at_k m hub_j at_m skipped. beats' k hub at_k m hub_j at_m (
                subst (λ z. (z == m || is_end a b hub || is_end a b hub_j) ≡ false) (one_more k)
                  skipped)),
        )
