-- ===== src/Domain/Records.antt =====
-- internal/domain/transaction.go, and `TxReceipt` of interfaces.go and `GasParams` of gas.go.
-- A ULID is a text of fixed length whose order is that of the 128-bit number it spells, and an
-- address or a hash is a fixed-size byte array with one lower-case print: all three are numbers
-- here. A nil pointer, an empty optional text and SQL's NULL are `none`. Times are nanoseconds.
use evm_tx_sender.Prelude.{
  ℕ, zero, suc, ◌/◌, ◌%◌, [], ◌∷◌, ◌++◌, hex_digit, Text, ℤ, Bool, true, false, Option, none, some,
  codes, text_eq, if◌then◌else◌,
}
use evm_tx_sender.Domain.Errors.{ErrorCode}

pub data TxStatus : Type 0 where
  queued pending submitted included confirmed reverted failed : TxStatus

abbrev pub is_terminal : TxStatus → Bool
is_terminal TxStatus.confirmed = true
is_terminal TxStatus.reverted = true
is_terminal TxStatus.failed = true
is_terminal _ = false

-- The text of a status, as the column and the API spell it.
abbrev pub status_text : TxStatus → Text
status_text TxStatus.queued = codes "QUEUED"
status_text TxStatus.pending = codes "PENDING"
status_text TxStatus.submitted = codes "SUBMITTED"
status_text TxStatus.included = codes "INCLUDED"
status_text TxStatus.confirmed = codes "CONFIRMED"
status_text TxStatus.reverted = codes "REVERTED"
status_text TxStatus.failed = codes "FAILED"

-- The last digits of a number in hexadecimal.
unfoldable pub hex_digits : ℕ → ℕ → Text
hex_digits zero n = []
hex_digits (suc k) n = hex_digits k (n / 16) ++ hex_digit (n % 16) ∷ []

-- The text that stands for an address in the tables: `0x` and forty digits in lower case.
unfoldable pub address_text : ℕ → Text
address_text n = codes "0x" ++ hex_digits 40 n

-- Go's `==` on two statuses.
abbrev pub status_eq : TxStatus → TxStatus → Bool
status_eq TxStatus.queued TxStatus.queued = true
status_eq TxStatus.pending TxStatus.pending = true
status_eq TxStatus.submitted TxStatus.submitted = true
status_eq TxStatus.included TxStatus.included = true
status_eq TxStatus.confirmed TxStatus.confirmed = true
status_eq TxStatus.reverted TxStatus.reverted = true
status_eq TxStatus.failed TxStatus.failed = true
status_eq _ _ = false

pub data AttemptStatus : Type 0 where
  attempt_broadcast attempt_confirmed attempt_replaced attempt_dropped : AttemptStatus

pub data Priority : Type 0 where
  low normal high urgent : Priority

abbrev pub parse_priority : Text → Option Priority
parse_priority s =
    if text_eq s (codes "low")
    then some low
    else if text_eq s (codes "normal")
    then some normal
    else if text_eq s (codes "high")
    then some high
    else if text_eq s (codes "urgent")
    then some urgent
    else none

-- Who moved a transaction: the `actor` texts of the pipeline, the workers and the API.
pub data Actor : Type 0 where
  pipeline_actor : ℕ → ℕ → Actor
  receipt_poller_actor : ℕ → Actor
  stuck_detector_actor api_actor : Actor

pub record Transaction : Type 0 where
  pub id : ℕ
  pub idempotency_key : Text
  pub chain_id : ℕ
  pub sender : ℕ
  pub to_address : ℕ
  pub value : ℤ
  pub payload : Text
  pub gas_limit : Option ℕ
  pub nonce : Option ℕ
  pub priority : Priority
  pub status : TxStatus
  pub error_reason : Text
  pub error_code : Option ErrorCode
  pub final_tx_hash : Option ℕ
  pub block_number : Option ℕ
  pub block_hash : Option ℕ
  pub gas_used : Option ℕ
  pub effective_gas_price : Option ℕ
  pub receipt_status : Option ℕ
  pub receipt_data : Text
  pub confirmations : ℕ
  pub transfer_token : Text
  pub transfer_amount : Text
  pub transfer_recipient : ℕ
  pub token_contract : Option ℕ
  pub token_decimals : ℕ
  pub metadata : Text
  pub created_at : ℕ
  pub updated_at : ℕ
  pub submitted_at : Option ℕ
  pub confirmed_at : Option ℕ
  pub claimed_by : Option Actor
  pub claimed_at : Option ℕ

pub record GasParams : Type 0 where
  pub gas_limit : ℕ
  pub max_fee_per_gas : Option ℕ
  pub max_priority_fee_per_gas : Option ℕ
  pub gas_price : Option ℕ
  pub tx_type : ℕ

pub record TxAttempt : Type 0 where
  pub id : ℕ
  pub transaction_id : ℕ
  pub attempt_number : ℕ
  pub tx_hash : ℕ
  pub gas : GasParams
  pub raw_tx : Text
  pub status : AttemptStatus
  pub error_reason : Text
  pub created_at : ℕ
  pub confirmed_at : Option ℕ

-- The `reason` texts of the log, one constructor for each format string.
pub data Reason : Type 0 where
  claimed_by_pipeline max_gas_bumps_exceeded reorg_seen transfer_requested : Reason
  failure : Text → Reason
  broadcast_with : ℕ → ℕ → Reason
  gas_bump : ℕ → ℕ → Reason
  transfer_event_missing confirmed_in reverted_in : ℕ → Reason
  included_in confirmed_after reorged_from : ℕ → ℕ → Reason

pub record TxStateLog : Type 0 where
  pub transaction_id : ℕ
  pub from_status : Option TxStatus
  pub to_status : TxStatus
  pub actor : Actor
  pub reason : Reason

pub record NonceCursor : Type 0 where
  pub sender : ℕ
  pub chain_id : ℕ
  pub next_nonce : ℕ

pub record TxReceipt : Type 0 where
  pub tx_hash : Option ℕ
  pub block_number : ℕ
  pub block_hash : ℕ
  pub gas_used : ℕ
  pub effective_gas_price : ℕ
  pub status : ℕ
  pub receipt_json : Text
