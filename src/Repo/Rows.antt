-- ===== src/Repo/Rows.antt =====
-- The SET clauses of repo.go, as functions of one row.
use evm_tx_sender.Prelude.{ℕ, ◌*◌, ◌/◌, Text, none, some, []}
use evm_tx_sender.Domain.{
  Transaction, TxStatus, TxReceipt, ErrorCode, Actor, TxAttempt, AttemptStatus,
}

-- What a TIMESTAMPTZ keeps of a time: whole microseconds.
abbrev pub to_micros : ℕ → ℕ
to_micros time = time / 1000 * 1000

-- The row that the INSERT of `CreateTransaction` makes of a transaction: the columns that it does not
-- list take their default. `normal_json` is what JSONB makes of the spelling of a value.
unfoldable pub as_stored : (Text → Text) → Transaction → Transaction
as_stored normal_json tx = record tx {
  gas_limit = none;
  nonce = none;
  error_reason = [];
  error_code = none;
  final_tx_hash = none;
  block_number = none;
  block_hash = none;
  gas_used = none;
  effective_gas_price = none;
  receipt_status = none;
  receipt_data = [];
  confirmations = 0;
  metadata = normal_json tx.metadata;
  created_at = to_micros tx.created_at;
  updated_at = to_micros tx.updated_at;
  submitted_at = none;
  confirmed_at = none;
  claimed_by = none;
  claimed_at = none;
}

unfoldable pub set_claimed : Actor → ℕ → Transaction → Transaction
set_claimed claimed_by now t = record t {
  status = TxStatus.pending;
  claimed_by = some claimed_by;
  claimed_at = some now;
  updated_at = now;
}

unfoldable pub set_nonce : ℕ → ℕ → Transaction → Transaction
set_nonce nonce now t = record t { nonce = some nonce; updated_at = now }

unfoldable pub set_submitted : ℕ → ℕ → Transaction → Transaction
set_submitted tx_hash now t = record t {
  status = TxStatus.submitted;
  final_tx_hash = some tx_hash;
  submitted_at = some now;
  updated_at = now;
}

-- The columns that a receipt fills.
unfoldable pub set_receipt : TxReceipt → ℕ → Transaction → Transaction
set_receipt r now t = record t {
  final_tx_hash = r.tx_hash;
  block_number = some r.block_number;
  block_hash = some r.block_hash;
  gas_used = some r.gas_used;
  effective_gas_price = some r.effective_gas_price;
  receipt_status = some r.status;
  receipt_data = r.receipt_json;
  updated_at = now;
}

unfoldable pub set_confirmed : TxReceipt → ℕ → Transaction → Transaction
unfolding set_receipt
set_confirmed r now t = record (set_receipt r now t) {
  status = TxStatus.confirmed;
  confirmed_at = some now;
}

unfoldable pub set_included : TxReceipt → ℕ → Transaction → Transaction
unfolding set_receipt
set_included r now t = record (set_receipt r now t) { status = TxStatus.included }

unfoldable pub set_reverted : TxReceipt → ℕ → Transaction → Transaction
unfolding set_receipt
set_reverted r now t = record (set_receipt r now t) {
  status = TxStatus.reverted;
  confirmed_at = some now;
}

unfoldable pub set_back_to_submitted : ℕ → Transaction → Transaction
set_back_to_submitted now t = record t {
  status = TxStatus.submitted;
  block_number = none;
  block_hash = none;
  gas_used = none;
  effective_gas_price = none;
  receipt_status = none;
  receipt_data = [];
  updated_at = now;
}

unfoldable pub set_failed : ErrorCode → Text → ℕ → Transaction → Transaction
set_failed code reason now t = record t {
  status = TxStatus.failed;
  error_code = some code;
  error_reason = reason;
  updated_at = now;
}

unfoldable pub set_queued : ℕ → Transaction → Transaction
set_queued now t = record t {
  status = TxStatus.queued;
  claimed_by = none;
  claimed_at = none;
  nonce = none;
  updated_at = now;
}

unfoldable pub set_attempt_status : AttemptStatus → TxAttempt → TxAttempt
set_attempt_status status a = record a { status = status }
