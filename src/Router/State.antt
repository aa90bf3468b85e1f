-- ===== src/Router/State.antt =====
-- The storage of the router (contracts/router/src/storage.rs) and the clients that it calls.
use coralswap_core.Prelude.{
  Bool, List, Option, [], false, if◌then◌else◌, none, some, true, ℕ, ◌&&◌, ◌==◌, ◌∷◌,
}
use coralswap_core.Env.{Address, Env}
use coralswap_core.Int.{ℤ}

pub record CommitEntry : Type 0 where
  pub hash : List ℕ
  pub ledger : ℕ

pub record RouterCommitConfig : Type 0 where
  pub max_commits : ℕ
  pub expiry_ledgers : ℕ

abbrev pub default_commit_config : RouterCommitConfig
default_commit_config = record { max_commits = 32; expiry_ledgers = 1_000 }

-- The entries by their `DataKey`; no hubs are the empty list, no count is 0.
pub record RouterStore : Type 0 where
  pub factory : Option Address
  pub hubs : List Address
  pub commit : List (Address × CommitEntry)
  pub nonce_used : Address → ℕ → Bool
  pub commit_count : ℕ
  pub commit_config : RouterCommitConfig

abbrev pub get_commit : Address → List (Address × CommitEntry) → Option CommitEntry
get_commit a [] = none
get_commit a ((k, e) ∷ m) = if a == k then some e else get_commit a m

abbrev pub set_commit :
    Address → CommitEntry → List (Address × CommitEntry) → List (Address × CommitEntry)
set_commit a e [] = (a, e) ∷ []
set_commit a e ((k, d) ∷ m) = if a == k then (a, e) ∷ m else (k, d) ∷ set_commit a e m

abbrev pub clear_commit : Address → List (Address × CommitEntry) → List (Address × CommitEntry)
clear_commit a [] = []
clear_commit a ((k, d) ∷ m) = if a == k then m else (k, d) ∷ clear_commit a m

-- What the router calls: the factory, the pairs and the tokens, with `W` for their state. A view of
-- the factory reads one entry and does not fail. For the other calls `none` is a call that fails,
-- whether by an error or a trap. Each call is made by the contract of the `Env`.
pub record Network (W : Type 0) : Type 0 where
  pub get_pair : Address → Address → Address → W → Option Address
  pub is_pair : Address → Address → W → Bool
  pub fee_to_setter : Address → W → Option Address
  pub get_reserves : Address → W → Option (ℤ × ℤ)
  pub get_effective_fee_bps : Address → W → Option ℕ
  pub swap : Env → Address → ℤ → ℤ → Address → W → Option W
  pub mint : Env → Address → Address → W → Option (ℤ × W)
  pub deposit_lp : Env → Address → Address → ℤ → W → Option W
  pub burn : Env → Address → Address → W → Option (ℤ × ℤ × W)
  pub token_balance : Address → Address → W → ℤ
  pub token_transfer : Env → Address → Address → Address → ℤ → W → Option W

pub record RouterWorld (W : Type 0) : Type 0 where
  pub store : RouterStore
  pub network : W

-- Equality of byte strings.
abbrev pub is_equal : List ℕ → List ℕ → Bool
is_equal [] [] = true
is_equal (x ∷ xs) (y ∷ ys) = x == y && is_equal xs ys
is_equal xs ys = false
