-- ===== src/Repo/Scan/Attempts.antt =====
-- `CreateAttempt`'s row and `scanAttempt`.
use evm_tx_sender.Prelude.{ℕ, Text, pos, Option, none, some, [], ◌≡◌, refl, arith}
use evm_tx_sender.Domain.{TxAttempt, AttemptStatus}
use evm_tx_sender.Domain.Amount.Print.{set_string-print_int}
use evm_tx_sender.Repo.Scan.{deref_string, big_int_to_string, scan_big_int}

-- The columns `attemptColumns`; a BIGINT that is scanned into an `uint64` is never negative.
pub record AttemptColumns : Type 0 where
  pub id : ℕ
  pub transaction_id : ℕ
  pub attempt_number : ℕ
  pub tx_hash : ℕ
  pub gas_limit : ℕ
  pub max_fee_per_gas : Option Text
  pub max_priority_fee_per_gas : Option Text
  pub gas_price : Option Text
  pub tx_type : ℕ
  pub raw_tx : Text
  pub status : AttemptStatus
  pub error_reason : Option Text
  pub created_at : ℕ
  pub confirmed_at : Option ℕ

unfoldable pub scan_attempt : AttemptColumns → TxAttempt
unfolding scan_big_int
scan_attempt c = record {
  id = c.id;
  transaction_id = c.transaction_id;
  attempt_number = c.attempt_number;
  tx_hash = c.tx_hash;
  gas = record {
    gas_limit = c.gas_limit;
    max_fee_per_gas = scan_big_int c.max_fee_per_gas;
    max_priority_fee_per_gas = scan_big_int c.max_priority_fee_per_gas;
    gas_price = scan_big_int c.gas_price;
    tx_type = c.tx_type;
  };
  raw_tx = c.raw_tx;
  status = c.status;
  error_reason = deref_string c.error_reason;
  created_at = c.created_at;
  confirmed_at = c.confirmed_at;
}

-- The row that `CreateAttempt` inserts.
unfoldable pub attempt_columns : TxAttempt → AttemptColumns
unfolding big_int_to_string
attempt_columns a = record {
  id = a.id;
  transaction_id = a.transaction_id;
  attempt_number = a.attempt_number;
  tx_hash = a.tx_hash;
  gas_limit = a.gas.gas_limit;
  max_fee_per_gas = big_int_to_string a.gas.max_fee_per_gas;
  max_priority_fee_per_gas = big_int_to_string a.gas.max_priority_fee_per_gas;
  gas_price = big_int_to_string a.gas.gas_price;
  tx_type = a.gas.tx_type;
  raw_tx = a.raw_tx;
  status = a.status;
  error_reason = none;
  created_at = a.created_at;
  confirmed_at = none;
}

scan_big_int-big_int_to_string : (o : Option ℕ) → scan_big_int (big_int_to_string o) ≡ o
unfolding scan_big_int big_int_to_string
scan_big_int-big_int_to_string none = refl
scan_big_int-big_int_to_string (some n) = rw (set_string-print_int (pos n)) refl

-- An attempt without an error and without a confirmation, as the workers make them, is read back
-- from its row as it was given to `CreateAttempt`, its fees of any size included.
pub scan_attempt-attempt_columns :
    (a : TxAttempt)
    → a.error_reason ≡ []
    → a.confirmed_at ≡ none
    → scan_attempt (attempt_columns a) ≡ a
unfolding scan_attempt attempt_columns
scan_attempt-attempt_columns a no_error unconfirmed = ground (
  arith,
  scan_big_int-big_int_to_string a.gas.max_fee_per_gas,
  scan_big_int-big_int_to_string a.gas.max_priority_fee_per_gas,
  scan_big_int-big_int_to_string a.gas.gas_price,
)
