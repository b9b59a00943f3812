-- ===== src/Api/Response.antt =====
-- `TxResponse`, `AttemptResp`, `toResponse` and `encodeHex`. A field with `omitempty` is left out of
-- the JSON where it is `none` or an empty text here.
use evm_tx_sender.Prelude.{
  ℕ, ◌/◌, ◌%◌, Text, pos, Option, none, some, List, [], ◌∷◌, ◌++◌, map, codes, is_empty, hex_digit,
  if◌then◌else◌,
}
use evm_tx_sender.Domain.{
  Transaction, status_text, ErrorCode, TxAttempt, AttemptStatus, address_text,
}
use evm_tx_sender.Domain.Amount.Print.{print_int}

-- `encodeHex`: the two digits of each byte.
unfoldable pub encode_hex : Text → Text
encode_hex [] = []
encode_hex (b ∷ s) = hex_digit (b / 16) ∷ hex_digit (b % 16) ∷ encode_hex s

pub record AttemptResp : Type 0 where
  pub attempt_number : ℕ
  pub tx_hash : ℕ
  pub max_fee_per_gas : Text
  pub max_priority_fee_per_gas : Text
  pub gas_price : Text
  pub status : AttemptStatus
  pub submitted_second : ℕ

pub record TxResponse : Type 0 where
  pub id : ℕ
  pub idempotency_key : Text
  pub status : Text
  pub chain_id : ℕ
  pub sender : Text
  pub to_address : Text
  pub value : Text
  pub payload : Text
  pub nonce : Option ℕ
  pub tx_hash : Option ℕ
  pub gas_used : Option ℕ
  pub effective_gas_price : Text
  pub block_number : Option ℕ
  pub block_hash : Option ℕ
  pub confirmations : ℕ
  pub receipt_status : Option ℕ
  pub error_reason : Text
  pub error_code : Option ErrorCode
  pub transfer_token : Text
  pub transfer_amount : Text
  pub transfer_recipient : Text
  pub token_contract : Option ℕ
  pub metadata : Text
  pub attempts : List AttemptResp
  pub created_at : ℕ
  pub updated_at : ℕ
  pub submitted_at : Option ℕ
  pub confirmed_at : Option ℕ

-- The print of a number that may be nil.
abbrev pub print_or_empty : Option ℕ → Text
print_or_empty none = []
print_or_empty (some n) = print_int (pos n)

-- The calldata, which is nil for a transfer of coins.
abbrev pub hex_payload : Text → Text
hex_payload payload = if is_empty payload then [] else codes "0x" ++ encode_hex payload

-- `Format(time.RFC3339)` prints whole seconds.
unfoldable pub attempt_resp : TxAttempt → AttemptResp
attempt_resp a = record {
  attempt_number = a.attempt_number;
  tx_hash = a.tx_hash;
  max_fee_per_gas = print_or_empty a.gas.max_fee_per_gas;
  max_priority_fee_per_gas = print_or_empty a.gas.max_priority_fee_per_gas;
  gas_price = print_or_empty a.gas.gas_price;
  status = a.status;
  submitted_second = a.created_at / 1000000000;
}

unfoldable pub to_response : Transaction → List TxAttempt → TxResponse
unfolding attempt_resp encode_hex
to_response tx attempts = record {
  id = tx.id;
  idempotency_key = tx.idempotency_key;
  status = status_text tx.status;
  chain_id = tx.chain_id;
  sender = address_text tx.sender;
  to_address = address_text tx.to_address;
  value = print_int tx.value;
  payload = hex_payload tx.payload;
  nonce = tx.nonce;
  tx_hash = tx.final_tx_hash;
  gas_used = tx.gas_used;
  effective_gas_price = print_or_empty tx.effective_gas_price;
  block_number = tx.block_number;
  block_hash = tx.block_hash;
  confirmations = tx.confirmations;
  receipt_status = tx.receipt_status;
  error_reason = tx.error_reason;
  error_code = tx.error_code;
  transfer_token = tx.transfer_token;
  transfer_amount = tx.transfer_amount;
  transfer_recipient = address_text tx.transfer_recipient;
  token_contract = tx.token_contract;
  metadata = tx.metadata;
  attempts = map attempt_resp attempts;
  created_at = tx.created_at;
  updated_at = tx.updated_at;
  submitted_at = tx.submitted_at;
  confirmed_at = tx.confirmed_at;
}
