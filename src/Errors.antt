-- ===== src/Errors.antt =====
-- The typed errors of the pair (contracts/pair/src/errors.rs) of the factory and of the router.
pub data PairError : Type 0 where
  already_initialized not_initialized insufficient_liquidity : PairError
  insufficient_input_amount insufficient_output_amount invalid_k locked : PairError
  flash_loan_not_repaid flash_payload_too_large contract_paused overflow zero_address : PairError
  insufficient_liquidity_minted insufficient_liquidity_burned invalid_input : PairError
  invalid_ema_alpha fee_overflow flash_callback_failed flash_loan_fee_too_high : PairError
  slippage_exceeded invalid_stale_threshold dust_amount lp_token_paused : PairError
  lp_token_unavailable lp_token_rejected contract_frozen : PairError

pub data OracleError : Type 0 where
  window_too_short window_too_long : OracleError

-- contracts/factory/src/errors.rs
pub data FactoryError : Type 0 where
  already_initialized not_initialized pair_exists invalid_signer_count : FactoryError
  insufficient_signatures timelock_not_expired protocol_paused identical_tokens : FactoryError
  upgrade_timelock_not_expired unauthorized upgrade_already_pending no_pending_upgrade :
      FactoryError
  limit_too_high fee_too_high invalid_fee_recipient fee_disabled duplicate_signer : FactoryError
  pair_freeze_failed pair_not_found : FactoryError

-- contracts/router/src/errors.rs
pub data RouterError : Type 0 where
  expired insufficient_output_amount excessive_input_amount invalid_path : RouterError
  pair_not_found identical_tokens zero_amount insufficient_liquidity slippage_exceeded : RouterError
  internal_error commit_not_found commit_reveal_too_early commit_hash_mismatch : RouterError
  nonce_already_used dust_amount commit_expired too_many_commits : RouterError
  invalid_commit_config invalid_token_order : RouterError
