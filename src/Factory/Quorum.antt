-- ===== src/Factory/Quorum.antt =====
-- What the multisig guarantees.
use coralswap_core.Prelude.{
  Bool-cases, List, [], ap, arith, false, if◌then◌else◌, inl, inr, length, ltb, not, refl, subst,
  sym, true, ◌*◌, ◌++◌, ◌+◌, ◌/◌, ◌<◌, ◌==◌, ◌||◌, ◌∷◌, ◌≡◌, ◌≤◌, ◌⊎◌,
}
use coralswap_core.Env.{Address, Env}
use coralswap_core.Errors.{FactoryError}
use coralswap_core.Factory.Governance.{
  check_signers, quorum_threshold, require_all, verify_multisig,
}
use coralswap_core.Factory.State.{mem}
use coralswap_core.Outcome.{>>=-then, ok, raise_if, raise_if-eq-ok, require, require-eq-ok}

-- No address is listed twice.
abbrev pub IsDistinct : List Address → Type 0
IsDistinct [] = Unit
IsDistinct (x ∷ xs) = (mem x xs ≡ false) × IsDistinct xs

abbrev pub AllIn : List Address → List Address → Type 0
AllIn xs ys = (a : Address) → mem a xs ≡ true → mem a ys ≡ true

-- One occurrence less.
abbrev without : Address → List Address → List Address
without a [] = []
without a (x ∷ xs) = if a == x then xs else x ∷ without a xs

length-without :
    (a : Address) (xs : List Address) → mem a xs ≡ true → length (without a xs) + 1 ≡ length xs
length-without a [] h = absurd (ground arith)
length-without a (x ∷ xs) h = elim (Bool-cases (a == x)) [
  | inl e ↦ ground arith
  | inr e ↦ let ih = length-without a xs (ground arith) in ground arith
]

mem-without :
    (a b : Address) (xs : List Address)
    → (b == a) ≡ false
    → mem b xs ≡ true
    → mem b (without a xs) ≡ true
mem-without a b [] n h = absurd (ground arith)
mem-without a b (x ∷ xs) n h = elim (Bool-cases (a == x)) [
  | inl e ↦ ground arith
  | inr e ↦ elim (Bool-cases (b == x)) [
    | inl f ↦ ground arith
    | inr f ↦ let ih = mem-without a b xs n (ground arith) in ground arith
  ]
]

other : (xs : List Address) (a x : Address) → mem x xs ≡ false → mem a xs ≡ true → (a == x) ≡ false
other xs a x fresh k = elim (Bool-cases (a == x)) [
  | inl e ↦ let same : a ≡ x = ground arith in absurd (cc (ap (λ (b : Address). mem b xs) same))
  | inr e ↦ e
]

-- Distinct addresses of a list are no more than the list.
length-AllIn : (xs ys : List Address) → IsDistinct xs → AllIn xs ys → length xs ≤ length ys
length-AllIn [] ys n h = omega arith
length-AllIn (x ∷ xs) ys (fresh, n) h =
    let at_x = h x (ground arith) in
    let shorter = length-without x ys at_x in
    let rest : AllIn xs (without x ys) =
      λ a k. mem-without x a ys (other xs a x fresh k) (h a (ground arith)) in
    let ih = length-AllIn xs (without x ys) n rest in omega arith

mem-++ : (a : Address) (xs ys : List Address) → mem a (xs ++ ys) ≡ (mem a xs || mem a ys)
mem-++ a [] ys = refl
mem-++ a (x ∷ xs) ys = let ih = mem-++ a xs ys in ground arith

length-++ : (xs ys : List Address) → length (xs ++ ys) ≡ length xs + length ys
length-++ [] ys = omega arith
length-++ (x ∷ xs) ys = let ih = length-++ xs ys in ground arith

-- Two lists of distinct addresses share one, or their concatenation is distinct.
meet_or_IsDistinct :
    (xs ys : List Address)
    → IsDistinct xs
    → IsDistinct ys
    → ((a : Address) × (mem a xs ≡ true) × (mem a ys ≡ true)) ⊎ IsDistinct (xs ++ ys)
meet_or_IsDistinct [] ys n m = inr m
meet_or_IsDistinct (x ∷ xs) ys (fresh, n) m = elim (Bool-cases (mem x ys)) [
  | inl both ↦ inl (x, ground arith, both)
  | inr apart ↦ elim (meet_or_IsDistinct xs ys n m) [
    | inl (a, at_xs, at_ys) ↦ inl (a, ground arith, at_ys)
    | inr all ↦ let split = mem-++ x xs ys in inr (ground arith, all)
  ]
]

-- What a check that passes has seen.
pub record IsQuorum (env : Env) (registered signers : List Address) : Type 0 where
  pub majority : length registered < 2 * length signers
  pub distinct : IsDistinct signers
  pub all_registered : AllIn signers registered
  pub all_authorized : (a : Address) → mem a signers ≡ true → env.authorized a ≡ true

pub member_cases :
    (a x : Address) (xs : List Address) → mem a (x ∷ xs) ≡ true → (a ≡ x) ⊎ (mem a xs ≡ true)
member_cases a x xs k = elim (Bool-cases (a == x)) [
  | inl e ↦ inl (ground arith)
  | inr e ↦ inr (ground arith)
]

check_signers-IsDistinct :
    (registered earlier signers : List Address) {u : Unit {0}}
    → check_signers registered earlier signers ≡ ok u
    → IsDistinct signers
      × AllIn signers registered
      × ((a : Address) → mem a signers ≡ true → mem a earlier ≡ false)
unfolding check_signers
check_signers-IsDistinct registered earlier [] h =
    (tt, (λ a k. absurd (ground arith)), λ a k. absurd (ground arith))
check_signers-IsDistinct registered earlier (x ∷ xs) h =
    >>=-then (raise_if (not (mem x registered)) FactoryError.unauthorized) _ h λ u e h0.
      >>=-then (raise_if (mem x earlier) FactoryError.duplicate_signer) _ h0 λ v f h1.
        let is_registered = raise_if-eq-ok _ FactoryError.unauthorized e in
        let fresh = raise_if-eq-ok _ FactoryError.duplicate_signer f in
        let (distinct, all, apart) = check_signers-IsDistinct registered (x ∷ earlier) xs h1 in
        let apart_x : mem x xs ≡ false = elim (Bool-cases (mem x xs)) [
          | inl k ↦ let gone = apart x k in absurd (ground arith)
          | inr k ↦ k
        ] in
        (
          (apart_x, distinct),
          λ a k. elim (member_cases a x xs k) [
            | inl same ↦ subst (λ b. mem b registered ≡ true) (sym same) (ground arith)
            | inr later ↦ all a later
          ],
          λ a k. elim (member_cases a x xs k) [
            | inl same ↦ subst (λ b. mem b earlier ≡ false) (sym same) fresh
            | inr later ↦ let gone = apart a later in ground arith
          ],
        )

require_all-authorized :
    (env : Env) (signers : List Address) {u : Unit {0}}
    → require_all env signers ≡ ok u
    → (a : Address) → mem a signers ≡ true
    → env.authorized a ≡ true
unfolding require_all
require_all-authorized env [] h a k = absurd (ground arith)
require_all-authorized env (x ∷ xs) h a k = >>=-then (require (env.authorized x)) _ h λ u e h0.
    elim (member_cases a x xs k) [
      | inl same ↦
          subst (λ b. env.authorized b ≡ true) (sym same) (require-eq-ok (env.authorized x) e)
      | inr later ↦ require_all-authorized env xs h0 a later
    ]

-- A check that passes was of a quorum: distinct registered signers, more than half of the registered
-- ones, who have all authorized the call.
verify_multisig-IsQuorum :
    (env : Env) (registered signers : List Address) {u : Unit {0}}
    → verify_multisig env registered signers ≡ ok u
    → IsQuorum env registered signers
unfolding verify_multisig quorum_threshold
verify_multisig-IsQuorum env registered signers h =
    >>=-then (raise_if (length registered == 0) FactoryError.invalid_signer_count) _ h λ u e h0.
      >>=-then (check_signers registered [] signers) _ h0 λ v f h1.
        >>=-then
          (raise_if (ltb (length signers) (length registered / 2 + 1))
            FactoryError.insufficient_signatures)
          _ h1
          λ t g h2.
            let enough = raise_if-eq-ok _ FactoryError.insufficient_signatures g in
            let (distinct, all, apart) = check_signers-IsDistinct registered [] signers f in
            record {
              majority =
                  let k : length registered / 2 + 1 ≤ length signers = ground arith in omega arith;
              distinct = distinct;
              all_registered = all;
              all_authorized = require_all-authorized env signers h2;
            }

-- Two checks that pass against the same registered signers share a signer, who has authorized both
-- calls.
pub two_quorums_meet :
    (env_1 env_2 : Env) (registered signers_1 signers_2 : List Address) {u v : Unit {0}}
    → verify_multisig env_1 registered signers_1 ≡ ok u
    → verify_multisig env_2 registered signers_2 ≡ ok v
    → (a : Address) × (mem a registered ≡ true)
      × (mem a signers_1 ≡ true)
      × (mem a signers_2 ≡ true)
      × (env_1.authorized a ≡ true)
      × (env_2.authorized a ≡ true)
two_quorums_meet env_1 env_2 registered xs ys h_1 h_2 =
    let q = verify_multisig-IsQuorum env_1 registered xs h_1 in
    let r = verify_multisig-IsQuorum env_2 registered ys h_2 in
    elim (meet_or_IsDistinct xs ys q.distinct r.distinct) [
      | inl (a, at_xs, at_ys) ↦ (
        a,
        q.all_registered a at_xs,
        at_xs,
        at_ys,
        q.all_authorized a at_xs,
        r.all_authorized a at_ys,
      )
      | inr all ↦
          let either : AllIn (xs ++ ys) registered = λ a k.
            let split = mem-++ a xs ys in
            elim (Bool-cases (mem a xs)) [
              | inl at_xs ↦ q.all_registered a at_xs
              | inr absent ↦ r.all_registered a (ground arith)
            ] in
          let few = length-AllIn (xs ++ ys) registered all either in
          let sum = length-++ xs ys in
          let more = q.majority in let more' = r.majority in absurd (omega arith)
    ]
