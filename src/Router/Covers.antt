-- ===== src/Router/Covers.antt =====
-- Amounts that reach their minimums, one by one.
use coralswap_core.Prelude.{List, [], arith, false, length, min, refl, true, ◌∷◌, ◌≡◌}
use coralswap_core.Errors.{RouterError}
use coralswap_core.Int.{leb_ℤ, ltb_ℤ, negsuc, pos, ℤ}
use coralswap_core.Int.Laws.{not_ltb_ℤ}
use coralswap_core.Outcome.{>>=-then, ok, raise_if, raise_if-eq-ok}
use coralswap_core.Router.Swaps.{last_or, reach}

-- Every amount reaches its minimum, and the two lists are as long.
abbrev pub Covers : List ℤ → List ℤ → Type 0
Covers [] [] = Unit
Covers (a ∷ amounts) (m ∷ mins) = (leb_ℤ m a ≡ true) × Covers amounts mins
Covers [] (m ∷ mins) = ⊥
Covers (a ∷ amounts) [] = ⊥

not_below : (a m : ℤ) → leb_ℤ m a ≡ true → ltb_ℤ a m ≡ false
not_below (pos a) (pos m) h = ground arith
not_below (pos a) (negsuc m) h = refl
not_below (negsuc a) (pos m) h = cc
not_below (negsuc a) (negsuc m) h = ground arith

pub last_of_one :
    (min d : ℤ) (outs : List ℤ) → Covers outs (min ∷ []) → leb_ℤ min (last_or d outs) ≡ true
last_of_one min d [] c = absurd c
last_of_one min d (o ∷ []) (reaches, c) = reaches
last_of_one min d (o ∷ p ∷ outs) (reaches, c) = absurd c

pub last_of_more :
    (min d : ℤ) (outs : List ℤ) (current : ℤ) (mins : List ℤ)
    → Covers outs (current ∷ mins)
    → ((more : List ℤ) (d' : ℤ) → Covers more mins → leb_ℤ min (last_or d' more) ≡ true)
    → leb_ℤ min (last_or d outs) ≡ true
last_of_more min d [] current mins c ih = absurd c
last_of_more min d (o ∷ more) current mins (reaches, c) ih = ih more o c

pub Covers-reach : (amounts mins : List ℤ) → Covers amounts mins → reach amounts mins ≡ ok tt
Covers-reach [] [] c = refl
Covers-reach [] (m ∷ mins) c = absurd c
Covers-reach (a ∷ amounts) [] c = absurd c
Covers-reach (a ∷ amounts) (m ∷ mins) (reaches, c) =
    rw (not_below a m reaches) (Covers-reach amounts mins c)

pub reach-Covers :
    (amounts mins : List ℤ)
    → length amounts ≡ length mins
    → reach amounts mins ≡ ok tt
    → Covers amounts mins
reach-Covers [] [] e h = tt
reach-Covers [] (m ∷ mins) e h = absurd (omega arith)
reach-Covers (a ∷ amounts) [] e h = absurd (omega arith)
reach-Covers (a ∷ amounts) (m ∷ mins) e h =
    >>=-then (raise_if (ltb_ℤ a m) RouterError.insufficient_output_amount) _ h λ u k h1.
      let above = not_ltb_ℤ a m (raise_if-eq-ok _ RouterError.insufficient_output_amount k) in
      (above, reach-Covers amounts mins (omega arith) h1)
