-- ===== src/Transfer/Stored.antt =====
-- What of a new transaction comes back from the row that is inserted for it.
use evm_tx_sender.Prelude.{◌*◌, ◌/◌, ◌≡◌, refl}
use evm_tx_sender.Domain.{Priority}
use evm_tx_sender.Domain.Amount.Print.{set_string-print_int}
use evm_tx_sender.Repo.Scan.{scan_transaction, created_columns}
use evm_tx_sender.Transfer.{
  TransferHandler, TransferRequest, RequestAnswers, Resolved, new_transaction,
}

-- The transaction that `Create` makes of a request is read back by `scanTransaction` from the row that
-- `CreateTransaction` inserts, field by field and also where its value exceeds 64 bits, but for its
-- metadata, which come back in the normal form of JSONB, and its two times, which come back without
-- what is less than a microsecond.
pub scan-created_columns :
    (h : TransferHandler) (req : TransferRequest) (answers : RequestAnswers) (p : Priority)
    (params : Resolved)
    → scan_transaction (created_columns h.normal_json (new_transaction h req answers p params))
      ≡ record (new_transaction h req answers p params) {
        metadata = h.normal_json req.metadata;
        created_at = answers.now / 1000 * 1000;
        updated_at = answers.now / 1000 * 1000;
      }
unfolding scan_transaction created_columns new_transaction
scan-created_columns h req answers p params = rw (set_string-print_int params.value) refl
