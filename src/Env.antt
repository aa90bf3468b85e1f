-- ===== src/Env.antt =====
-- What a contract call sees of the host: the ledger, who has authorized the call, and the contract
-- that runs. Addresses are only compared, so an address is a number.
use coralswap_core.Prelude.{Bool, ℕ, ◌==◌, ◌||◌}

abbrev pub Address : Type 0
Address = ℕ

pub record Env : Type 0 where
  pub sequence : ℕ
  pub timestamp : ℕ
  pub authorized : Address → Bool
  pub contract : Address

-- A contract that calls another one has authorized its own address for that call.
abbrev pub invoke : Env → Address → Env
invoke env callee = record env {
  authorized = λ a. a == env.contract || env.authorized a;
  contract = callee;
}
