-- ===== src/Prelude/Lists.antt =====
-- Lists with native indices, under the library's names.
use Prim.Native.Nat.{ℕ, zero, suc, ◌+◌}
use mathlib.Core.Path.{◌≡◌, subst}
use native.Mathlib.Omega.{arith}
use coralswap_core.Prelude.Tests.{some-injective}
use mathlib.Core.Option.{Option, none, some}
use mathlib.Core.List.{List, [], ◌∷◌}

module _ {ℓ} {A : Type ℓ} where
  abbrev pub length : List A → ℕ
  length [] = 0
  length (x ∷ xs) = suc (length xs)

  abbrev pub get_elem? : List A → ℕ → Option A
  get_elem? [] i = none
  get_elem? (x ∷ xs) zero = some x
  get_elem? (x ∷ xs) (suc i) = get_elem? xs i

  -- A write out of bounds changes nothing.
  abbrev pub set : List A → ℕ → A → List A
  set [] i v = []
  set (x ∷ xs) zero v = v ∷ xs
  set (x ∷ xs) (suc i) v = x ∷ set xs i v

-- A claim on every entry of a list, from the first one and the others.
pub get_elem?-cases {ℓ κ} :
    {A : Type ℓ} (Q : ℕ → A → Type κ) (x : A) (xs : List A)
    → Q 0 x
    → ((k : ℕ) (y : A) → get_elem? xs k ≡ some y → Q (k + 1) y)
    → (k : ℕ) (y : A) → get_elem? (x ∷ xs) k ≡ some y
    → Q k y
get_elem?-cases Q x xs first later zero y h = subst (λ z. Q 0 z) (some-injective h) first
get_elem?-cases Q x xs first later (suc k) y h =
    let same : k + 1 ≡ suc k = omega arith in subst (λ i. Q i y) same (later k y h)
