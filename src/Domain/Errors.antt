-- ===== src/Domain/Errors.antt =====
-- internal/domain/errors.go. A code's wire text is its constant's name, so an enumeration keeps
-- what the program compares.
use evm_tx_sender.Prelude.{ℕ}

pub data ErrorCode : Type 0 where
  invalid_address invalid_chain invalid_value unknown_sender idempotency_conflict : ErrorCode
  estimation_reverted insufficient_funds nonce_too_low rpc_unavailable : ErrorCode
  broadcast_failed max_retries_exceeded signing_failed db_unavailable internal_error : ErrorCode
  token_not_whitelisted token_disabled invalid_amount amount_too_many_decimals : ErrorCode
  zero_amount exceeds_transfer_limit amount_overflow zero_address_recipient : ErrorCode
  self_transfer_token invalid_recipient invalid_priority missing_field : ErrorCode
  idempotency_key_too_long erc20_transfer_not_verified reorg_detected : ErrorCode

-- The message of an `AppError` is prose for the caller and is left out.
pub record AppError : Type 0 where
  pub code : ErrorCode
  pub http : ℕ

abbrev pub new_app_error : ErrorCode → ℕ → AppError
new_app_error code http_status = record { code = code; http = http_status }
