-- ===== src/Router/Candidates.antt =====
-- What the loops over the candidates of `get_best_path` keep.
use coralswap_core.Prelude.{
  Bool, Bool-cases, List, arith, false, if◌then◌else◌, inl, inr, refl, subst, true, ◌≡◌, ◌⊎◌,
}
use coralswap_core.Env.{Address}
use coralswap_core.Errors.{RouterError}
use coralswap_core.Int.{leb_ℤ, ltb_ℤ, negsuc, pos, ℤ}
use coralswap_core.Int.Laws.{not_ltb_ℤ}
use coralswap_core.Outcome.{Outcome, err, ok, ok-injective, trap}
use coralswap_core.Router.BestPath.{Best, offer}

pub leb_ℤ_refl : (a : ℤ) → leb_ℤ a a ≡ true
leb_ℤ_refl (pos a) = ground arith
leb_ℤ_refl (negsuc a) = ground arith

pub leb_ℤ_trans : (a b c : ℤ) → leb_ℤ a b ≡ true → leb_ℤ b c ≡ true → leb_ℤ a c ≡ true
leb_ℤ_trans (pos a) (pos b) (pos c) h k = ground arith
leb_ℤ_trans (negsuc a) (pos b) (pos c) h k = refl
leb_ℤ_trans (negsuc a) (negsuc b) (pos c) h k = refl
leb_ℤ_trans (negsuc a) (negsuc b) (negsuc c) h k = ground arith
leb_ℤ_trans (pos a) (negsuc b) c h k = absurd (cc)
leb_ℤ_trans (pos a) (pos b) (negsuc c) h k = absurd (cc)
leb_ℤ_trans (negsuc a) (pos b) (negsuc c) h k = absurd (cc)

ltb_ℤ→leb : (a b : ℤ) → ltb_ℤ a b ≡ true → leb_ℤ a b ≡ true
ltb_ℤ→leb (pos a) (pos b) h = ground arith
ltb_ℤ→leb (pos a) (negsuc b) h = absurd (cc)
ltb_ℤ→leb (negsuc a) (pos b) h = refl
ltb_ℤ→leb (negsuc a) (negsuc b) h = ground arith

-- Where a candidate's quotes succeed, the best route pays no less.
abbrev pub Beats : Best → Outcome RouterError ℤ → Type 0
Beats b c = (out : ℤ) → c ≡ ok out → leb_ℤ out b.out ≡ true

-- `R path out` says what is known of a route; before the first one nothing is found.
module _ (R : List Address → ℤ → Type 0) where
  abbrev pub IsFound : Best → Type 0
  IsFound b = (b.out ≡ negsuc 0) ⊎ R b.path b.out

  -- From one best route to a later one.
  abbrev pub Improves : Best → Best → Type 0
  Improves a b = IsFound b × (leb_ℤ a.out b.out ≡ true)

  pub Improves-refl : (b : Best) → IsFound b → Improves b b
  Improves-refl b f = (f, leb_ℤ_refl b.out)

  pub offer-Improves :
      (path : List Address) (c : Outcome RouterError ℤ) (best : Best) {next : Best}
      → offer path c best ≡ ok next
      → ((out : ℤ) → c ≡ ok out → R path out)
      → IsFound best
      → Improves best next × Beats next c
  offer-Improves path (ok o) best {next} h route found = elim (Bool-cases (ltb_ℤ best.out o)) [
    | inl better ↦
        let now : record { path = path; out = o } ≡ next = ok-injective (rw better at h) in
        subst (λ (b : Best). Improves best b × Beats b (ok o)) now
          (
            (inr (route o refl), ltb_ℤ→leb best.out o better),
            λ out k. subst (λ t. leb_ℤ t o ≡ true) (ok-injective k) (leb_ℤ_refl o),
          )
    | inr worse ↦
        let now : best ≡ next = ok-injective (rw worse at h) in
        subst (λ (b : Best). Improves best b × Beats b (ok o)) now
          (
            Improves-refl best found,
            λ out k.
                subst (λ t. leb_ℤ t best.out ≡ true) (ok-injective k) (not_ltb_ℤ best.out o worse),
          )
  ]
  offer-Improves path (err e) best {next} h route found =
      let now : best ≡ next = ok-injective h in
      subst (λ (b : Best). Improves best b × Beats b (err e)) now
        (Improves-refl best found, λ out k. absurd (cc))
  offer-Improves path trap best h route found = absurd (cc)

  pub Improves-trans : (a b c : Best) → Improves a b → Improves b c → Improves a c
  Improves-trans a b c (f, h) (g, k) = (g, leb_ℤ_trans a.out b.out c.out h k)

  pub Beats-later : (a b : Best) (c : Outcome RouterError ℤ) → Beats a c → Improves a b → Beats b c
  Beats-later a b c beats (f, h) out k = leb_ℤ_trans out a.out b.out (beats out k) h

  -- One round of a loop: the candidate is offered unless it is skipped.
  pub round-Improves :
      (skip : Bool) (path : List Address) (c : Outcome RouterError ℤ) (best : Best) {next : Best}
      → (if skip then ok best else offer path c best) ≡ ok next
      → ((out : ℤ) → c ≡ ok out → R path out)
      → IsFound best
      → Improves best next × (skip ≡ false → Beats next c)
  round-Improves true path c best h route found =
      let now : best ≡ _ = ok-injective h in
      (subst (λ (b : Best). Improves best b) now (Improves-refl best found), λ k. absurd (cc))
  round-Improves false path c best h route found =
      let (improves, beats) = offer-Improves path c best h route found in (improves, λ k. beats)
