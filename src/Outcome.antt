-- ===== src/Outcome.antt =====
-- How a contract call ends: with a value, with a typed error, or with a trap (a panic: a failed
-- `require_auth`, an arithmetic overflow under `overflow-checks`, a failed nested call).
-- The host drops every write of a call that does not end with a value, so a call's new state
-- stands beside its value.
use coralswap_core.Prelude.{Bool, Option, arith, false, inl, inr, none, refl, some, true, ◌≡◌, ◌⊎◌}

pub data Outcome (E A : Type 0) : Type 0 where
  ok : A → Outcome E A
  err : E → Outcome E A
  trap : Outcome E A

infixl 5 ◌>>=◌ ◌>>◌
abbrev pub ◌>>=◌ : {E A B : Type 0} → Outcome E A → (A → Outcome E B) → Outcome E B
ok a >>= f = f a
err e >>= f = err e
trap >>= f = trap

abbrev pub ◌>>◌ : {E B : Type 0} → Outcome E (Unit {0}) → Outcome E B → Outcome E B
m >> k = m >>= λ _. k

-- `if c { return Err(e) }`
abbrev pub raise_if : {E : Type 0} → Bool → E → Outcome E (Unit {0})
raise_if true e = err e
raise_if false e = ok tt

-- `o.ok_or(e)?`
abbrev pub ok_or : {E A : Type 0} → Option A → E → Outcome E A
ok_or none e = err e
ok_or (some a) e = ok a

-- `o.unwrap()`, and an operation of Rust that panics where `o` is `none`.
abbrev pub unwrap : {E A : Type 0} → Option A → Outcome E A
unwrap none = trap
unwrap (some a) = ok a

-- `address.require_auth()`
abbrev pub require : {E : Type 0} → Bool → Outcome E (Unit {0})
require true = ok tt
require false = trap

abbrev pub map_err : {E F A : Type 0} → (E → F) → Outcome E A → Outcome F A
map_err f (ok a) = ok a
map_err f (err e) = err (f e)
map_err f trap = trap

-- Where a chain of calls ends with a value, a proof goes on with what the first call has given.
pub >>=-then :
    {E A B C : Type 0} (first : Outcome E A) (next : A → Outcome E B) {v : B}
    → (first >>= next) ≡ ok v
    → ((u : A) → first ≡ ok u → next u ≡ ok v → C)
    → C
>>=-then (ok u) next h go = go u refl h
>>=-then (err e) next h go = absurd (ground arith)
>>=-then trap next h go = absurd (ground arith)

-- The same as a tuple.
pub >>=-eq-ok :
    {E A B : Type 0} (first : Outcome E A) (next : A → Outcome E B) {v : B}
    → (first >>= next) ≡ ok v
    → (u : A) × (first ≡ ok u) × (next u ≡ ok v)
>>=-eq-ok first next h = >>=-then first next h λ u e rest. (u, e, rest)

-- What the tests and the conversions above have seen where they end with a value.
pub raise_if-eq-ok :
    {E : Type 0} (b : Bool) (e : E) {u : Unit {0}} → raise_if b e ≡ ok u → b ≡ false
raise_if-eq-ok true e h = cc
raise_if-eq-ok false e h = refl

pub require-eq-ok : {E : Type 0} (b : Bool) {u : Unit {0}} → require {E = E} b ≡ ok u → b ≡ true
require-eq-ok true h = refl
require-eq-ok false h = cc

pub ok_or-eq-ok : {E A : Type 0} (o : Option A) (e : E) {a : A} → ok_or o e ≡ ok a → o ≡ some a
ok_or-eq-ok none e h = cc
ok_or-eq-ok (some b) e h = cc

pub unwrap-eq-ok : {E A : Type 0} (o : Option A) {a : A} → unwrap {E = E} o ≡ ok a → o ≡ some a
unwrap-eq-ok none h = cc
unwrap-eq-ok (some b) h = cc

pub ok-injective : {E A : Type 0} {a b : A} → ◌≡◌ {A = Outcome E A} (ok a) (ok b) → a ≡ b
ok-injective h = cc

-- To split on how a call ends.
pub Outcome-cases :
    {E A : Type 0} (m : Outcome E A) → ((a : A) × (m ≡ ok a)) ⊎ ((e : E) × (m ≡ err e)) ⊎ (m ≡ trap)
Outcome-cases (ok a) = inl (a, refl)
Outcome-cases (err e) = inr (inl (e, refl))
Outcome-cases trap = inr (inr refl)
