-- ===== src/Transfer/Request.antt =====
-- The request, `validate` and `resolveTransfer`.
use evm_tx_sender.Prelude.{
  ℕ, ℤ, pos, Text, Bool, true, false, not, ◌&&◌, Option, none, some, Result, ok, err, [], text_eq,
  is_empty, to_upper, length, ltb, leb_ℤ, ltb_ℤ, ◌==◌, if◌then◌else◌,
}
use evm_tx_sender.Domain.{
  ErrorCode, missing_field, idempotency_key_too_long, invalid_chain, invalid_address,
  unknown_sender, invalid_recipient, zero_address_recipient, invalid_priority, invalid_amount,
  zero_amount, amount_overflow, exceeds_transfer_limit, token_not_whitelisted, token_disabled,
  self_transfer_token, internal_error, AppError, new_app_error, ChainConfig, TokenConfig,
  lookup_token, parse_priority,
}
use evm_tx_sender.Domain.Amount.{AmountError, max_uint256, parse_amount_to_smallest_unit}

pub record TransferRequest : Type 0 where
  pub idempotency_key : Text
  pub chain_id : ℕ
  pub sender : Text
  pub recipient : Text
  pub token : Text
  pub amount : Text
  pub priority : Text
  pub metadata : Text

-- `TransferHandler`, with the lookup in its map of chains, and the arguments.
pub record TransferHandler : Type 0 where
  pub chain_of : ℕ → Option ChainConfig
  pub has_address : ℕ → Bool
  pub is_hex_address : Text → Bool
  pub hex_to_address : Text → ℕ
  pub pack_transfer : ℕ → ℤ → Result Text Text
  pub normal_json : Text → Text

-- `strings.EqualFold`
abbrev pub equal_fold : Text → Text → Bool
equal_fold s t = text_eq (to_upper s) (to_upper t)

-- A guard that returns an error, and what follows it.
unfoldable pub reject : Bool → ErrorCode → ℕ → Option AppError → Option AppError
reject true code http_status rest = some (new_app_error code http_status)
reject false code http_status rest = rest

abbrev pub is_none {ℓ} : {A : Type ℓ} → Option A → Bool
is_none none = true
is_none (some a) = false

unfoldable pub validate : TransferHandler → TransferRequest → Option AppError
validate h req = reject (is_empty req.idempotency_key) missing_field 400 (
    reject (ltb 256 (length req.idempotency_key)) idempotency_key_too_long 400 (
      reject (req.chain_id == 0) missing_field 400 (
        reject (is_none (h.chain_of req.chain_id)) invalid_chain 400 (
          reject (is_empty req.sender) missing_field 400 (
            reject (not (h.is_hex_address req.sender)) invalid_address 400 (
              reject (not (h.has_address (h.hex_to_address req.sender))) unknown_sender 404 (
                reject (is_empty req.recipient) missing_field 400 (
                  reject (not (h.is_hex_address req.recipient)) invalid_recipient 400 (
                    reject (h.hex_to_address req.recipient == 0) zero_address_recipient 400 (
                      reject (equal_fold req.sender req.recipient) invalid_recipient 400 (
                        reject (is_empty req.token) missing_field 400 (
                          reject (is_empty req.amount) missing_field 400 (
                            reject
                              (not (is_empty req.priority) && is_none (parse_priority req.priority))
                              invalid_priority 400 none)))))))))))))

-- `txParams` with the other results of `resolveTransfer`; a native transfer has no contract, and
-- the text `transferType` says whether there is one.
pub record Resolved : Type 0 where
  pub to_address : ℕ
  pub value : ℤ
  pub payload : Text
  pub token_contract : Option ℕ
  pub decimals : ℕ

abbrev pub exceeds : ℤ → Option ℤ → Bool
exceeds v none = false
exceeds v (some limit) = ltb_ℤ limit v

-- The tests of an amount, which are the same for coins and tokens.
unfoldable pub check_amount : Result AmountError ℤ → Option ℤ → Result AppError ℤ
check_amount (err e) limit = err (new_app_error invalid_amount 400)
check_amount (ok v) limit =
    if leb_ℤ v (pos 0)
    then err (new_app_error zero_amount 422)
    else if ltb_ℤ (pos max_uint256) v
    then err (new_app_error amount_overflow 422)
    else if exceeds v limit
    then err (new_app_error exceeds_transfer_limit 422)
    else ok v

abbrev pub native_params : ℕ → ℕ → Result AppError ℤ → Result AppError Resolved
native_params recipient decimals (err e) = err e
native_params recipient decimals (ok v) = ok (record {
  to_address = recipient;
  value = v;
  payload = [];
  token_contract = none;
  decimals = decimals;
})

abbrev pub token_params : TokenConfig → Result Text Text → Result AppError Resolved
token_params cfg (err e) = err (new_app_error internal_error 500)
token_params cfg (ok calldata) = ok (record {
  to_address = cfg.contract_address;
  value = pos 0;
  payload = calldata;
  token_contract = some cfg.contract_address;
  decimals = cfg.decimals;
})

abbrev pub token_amount :
    TransferHandler → TokenConfig → ℕ → Result AppError ℤ → Result AppError Resolved
token_amount h cfg recipient (err e) = err e
token_amount h cfg recipient (ok v) =
    if recipient == cfg.contract_address
    then err (new_app_error self_transfer_token 400)
    else token_params cfg (h.pack_transfer recipient v)

abbrev pub on_token : TransferHandler → Text → ℕ → Option TokenConfig → Result AppError Resolved
on_token h amount recipient none = err (new_app_error token_not_whitelisted 403)
on_token h amount recipient (some cfg) =
    if cfg.enabled
    then token_amount h cfg recipient
        (check_amount (parse_amount_to_smallest_unit amount cfg.decimals) cfg.max_transfer)
    else err (new_app_error token_disabled 403)

unfoldable pub resolve_transfer :
    TransferHandler → TransferRequest → ChainConfig → Result AppError Resolved
unfolding check_amount parse_amount_to_smallest_unit
resolve_transfer h req chain =
    let token = to_upper req.token in
    let recipient = h.hex_to_address req.recipient in
    if text_eq token (to_upper chain.native_token_symbol)
    then native_params recipient chain.native_token_decimals (
        check_amount (parse_amount_to_smallest_unit req.amount chain.native_token_decimals)
          chain.native_max_transfer)
    else on_token h req.amount recipient (lookup_token token chain.token_whitelist)
