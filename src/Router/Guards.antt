-- ===== src/Router/Guards.antt =====
-- What the checks before a swap let pass.
use coralswap_core.Prelude.{
  List, Option, arith, length, ltb, none, some, some-injective, ℕ, ◌≡◌, ◌≤◌,
}
use coralswap_core.Env.{Address, Env}
use coralswap_core.Errors.{RouterError}
use coralswap_core.Outcome.{>>=-then, ok, raise_if-eq-ok, require, require-eq-ok}
use coralswap_core.Router.Swaps.{check_deadline, check_hops}

-- What `check_deadline` lets pass.
pub record IsInTime (env : Env) (deadline : ℕ) (limit : Option ℕ) : Type 0 where
  pub on_time : env.timestamp ≤ deadline
  pub in_ledger : (l : ℕ) → limit ≡ some l → env.sequence ≤ l

pub check_deadline-eq-ok :
    (env : Env) (deadline : ℕ) (limit : Option ℕ) {u : Unit {0}}
    → check_deadline env deadline limit ≡ ok u
    → IsInTime env deadline limit
unfolding check_deadline
check_deadline-eq-ok env deadline none h = record {
  on_time = ground arith;
  in_ledger = λ l e. absurd (cc);
}
check_deadline-eq-ok env deadline (some m) h = record {
  on_time = ground arith;
  in_ledger = λ l e. let same : m ≡ l = some-injective e in ground arith;
}

pub check_hops-eq-ok :
    (path : List Address) {u : Unit {0}}
    → check_hops path ≡ ok u
    → (2 ≤ length path) × (length path ≤ 4)
check_hops-eq-ok path h = >>=-then (require (ltb 0 (length path))) _ h λ u e k.
    let some_token = require-eq-ok _ e in
    let fits = raise_if-eq-ok _ RouterError.invalid_path k in (ground arith, ground arith)
