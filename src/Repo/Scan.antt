-- ===== src/Repo/Scan.antt =====
-- What `CreateTransaction` writes into the columns of a row, and what `scanTransaction` (of which
-- `scanTransactionRows` is a copy) and its helpers read back. A BIGINT or SMALLINT is an integer, a
-- NUMERIC its text, and NULL is `none`. JSONB keeps its normal form of a text, `normal_json`, and a
-- TIMESTAMPTZ whole microseconds; both are read as they are kept. A negative gas price, which no
-- statement writes, is outside the model.
pub mod Attempts
use evm_tx_sender.Prelude.{ℕ, ◌-◌, ◌%◌, ◌^◌, Text, ℤ, pos, negsuc, pos_part, Option, none, some, []}
use evm_tx_sender.Domain.{
  Transaction, TxStatus, ErrorCode, Actor, Priority, TxReceipt, TxAttempt, AttemptStatus,
}
use evm_tx_sender.Repo.Rows.{to_micros}
use evm_tx_sender.Domain.Amount.{set_string}
use evm_tx_sender.Domain.Amount.Print.{print_int}

-- The columns `txColumns`.
pub record TxColumns : Type 0 where
  pub id : ℕ
  pub idempotency_key : Text
  pub chain_id : ℕ
  pub sender : ℕ
  pub to_address : ℕ
  pub value : Text
  pub payload : Text
  pub gas_limit : Option ℤ
  pub nonce : Option ℤ
  pub priority : Priority
  pub status : TxStatus
  pub error_reason : Option Text
  pub error_code : Option ErrorCode
  pub final_tx_hash : Option ℕ
  pub block_number : Option ℤ
  pub block_hash : Option ℕ
  pub gas_used : Option ℤ
  pub effective_gas_price : Option Text
  pub receipt_status : Option ℤ
  pub receipt_data : Text
  pub confirmations : Option ℕ
  pub transfer_token : Text
  pub transfer_amount : Text
  pub transfer_recipient : ℕ
  pub token_contract : Option ℕ
  pub token_decimals : ℕ
  pub metadata : Text
  pub created_at : ℕ
  pub updated_at : ℕ
  pub submitted_at : Option ℕ
  pub confirmed_at : Option ℕ
  pub claimed_by : Option Actor
  pub claimed_at : Option ℕ

-- `uint64(v)` of an `int64`, and `uint8(v)` of an `int16`.
abbrev pub to_uint64 : ℤ → ℕ
to_uint64 (pos n) = n % 2 ^ 64
to_uint64 (negsuc n) = 2 ^ 64 - 1 - n % 2 ^ 64

abbrev pub to_uint8 : ℤ → ℕ
to_uint8 (pos n) = n % 256
to_uint8 (negsuc n) = 255 - n % 256

abbrev pub option_map : {A B : Type 0} → (A → B) → Option A → Option B
option_map f none = none
option_map f (some a) = some (f a)

-- `derefString`
abbrev pub deref_string : Option Text → Text
deref_string none = []
deref_string (some s) = s

-- `bigIntToString`
unfoldable pub big_int_to_string : Option ℕ → Option Text
big_int_to_string none = none
big_int_to_string (some n) = some (print_int (pos n))

abbrev pub or_zero_int : Option ℤ → ℤ
or_zero_int none = pos 0
or_zero_int (some v) = v

abbrev pub or_zero_nat : Option ℕ → ℕ
or_zero_nat none = 0
or_zero_nat (some n) = n

-- A text that is no number is left out with a warning.
unfoldable pub scan_big_int : Option Text → Option ℕ
scan_big_int none = none
scan_big_int (some s) = option_map pos_part (set_string s)

unfoldable pub scan_transaction : TxColumns → Transaction
unfolding scan_big_int
scan_transaction c = record {
  id = c.id;
  idempotency_key = c.idempotency_key;
  chain_id = c.chain_id;
  sender = c.sender;
  to_address = c.to_address;
  value = or_zero_int (set_string c.value);
  payload = c.payload;
  gas_limit = option_map to_uint64 c.gas_limit;
  nonce = option_map to_uint64 c.nonce;
  priority = c.priority;
  status = c.status;
  error_reason = deref_string c.error_reason;
  error_code = c.error_code;
  final_tx_hash = c.final_tx_hash;
  block_number = option_map to_uint64 c.block_number;
  block_hash = c.block_hash;
  gas_used = option_map to_uint64 c.gas_used;
  effective_gas_price = scan_big_int c.effective_gas_price;
  receipt_status = option_map to_uint8 c.receipt_status;
  receipt_data = c.receipt_data;
  confirmations = or_zero_nat c.confirmations;
  transfer_token = c.transfer_token;
  transfer_amount = c.transfer_amount;
  transfer_recipient = c.transfer_recipient;
  token_contract = c.token_contract;
  token_decimals = c.token_decimals;
  metadata = c.metadata;
  created_at = c.created_at;
  updated_at = c.updated_at;
  submitted_at = c.submitted_at;
  confirmed_at = c.confirmed_at;
  claimed_by = c.claimed_by;
  claimed_at = c.claimed_at;
}

-- The row that `CreateTransaction` inserts: the other columns take their default.
unfoldable pub created_columns : (Text → Text) → Transaction → TxColumns
created_columns normal_json tx = record {
  id = tx.id;
  idempotency_key = tx.idempotency_key;
  chain_id = tx.chain_id;
  sender = tx.sender;
  to_address = tx.to_address;
  value = print_int tx.value;
  payload = tx.payload;
  gas_limit = none;
  nonce = none;
  priority = tx.priority;
  status = tx.status;
  error_reason = none;
  error_code = none;
  final_tx_hash = none;
  block_number = none;
  block_hash = none;
  gas_used = none;
  effective_gas_price = none;
  receipt_status = none;
  receipt_data = [];
  confirmations = some 0;
  transfer_token = tx.transfer_token;
  transfer_amount = tx.transfer_amount;
  transfer_recipient = tx.transfer_recipient;
  token_contract = tx.token_contract;
  token_decimals = tx.token_decimals;
  metadata = normal_json tx.metadata;
  created_at = to_micros tx.created_at;
  updated_at = to_micros tx.updated_at;
  submitted_at = none;
  confirmed_at = none;
  claimed_by = none;
  claimed_at = none;
}
