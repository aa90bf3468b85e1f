-- ===== src/Factory/Governance.antt =====
-- The multisig of the factory (contracts/factory/src/governance.rs).
use coralswap_core.Prelude.{List, [], length, ltb, not, ℕ, ◌+◌, ◌/◌, ◌==◌, ◌∷◌}
use coralswap_core.Env.{Address, Env}
use coralswap_core.Errors.{FactoryError}
use coralswap_core.Factory.State.{mem}
use coralswap_core.Outcome.{Outcome, ok, raise_if, require, ◌>>◌}

unfoldable pub quorum_threshold : ℕ → ℕ
quorum_threshold signer_count = signer_count / 2 + 1

-- The loop over the presented signers; `earlier` are those before the rest.
unfoldable pub check_signers :
    List Address → List Address → List Address → Outcome FactoryError (Unit {0})
check_signers registered earlier [] = ok tt
check_signers registered earlier (signer ∷ signers) = do
  raise_if (not (mem signer registered)) FactoryError.unauthorized
  raise_if (mem signer earlier) FactoryError.duplicate_signer
  check_signers registered (signer ∷ earlier) signers

unfoldable pub require_all : Env → List Address → Outcome FactoryError (Unit {0})
require_all env [] = ok tt
require_all env (signer ∷ signers) = do require (env.authorized signer); require_all env signers

unfoldable pub verify_multisig : Env → List Address → List Address → Outcome FactoryError (Unit {0})
unfolding quorum_threshold
verify_multisig env registered signers = do
  raise_if (length registered == 0) FactoryError.invalid_signer_count
  check_signers registered [] signers
  raise_if (ltb (length signers) (quorum_threshold (length registered)))
      FactoryError.insufficient_signatures
  require_all env signers
