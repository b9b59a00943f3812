-- ===== src/Examples/Reading.antt =====
-- What the database and the API give back.
use evm_tx_sender.Prelude.{◌*◌, ◌/◌, ◌≡◌, refl, none, some, [], codes, map, pos, ◌^◌, arith}
use evm_tx_sender.Domain.{TxStatus, Priority}
use evm_tx_sender.Domain.Amount.{unsigned}
use evm_tx_sender.Repo.{TxFilter, sort_by, matches_columns}
use evm_tx_sender.Repo.Scan.{scan_transaction, created_columns}
use evm_tx_sender.Repo.Listing.{listed}
use evm_tx_sender.Transfer.{Resolved, new_transaction}
use evm_tx_sender.Transfer.Stored.{scan-created_columns}
use evm_tx_sender.Api.{ListQuery, filter_for, filter_of, parse_uint}
use evm_tx_sender.Api.Pages.{plain, browse, browse_lists}
use evm_tx_sender.Examples.{tables, handler, request, first}

abbrev query : ListQuery
query = record {
  chain_id = codes "1";
  sender = [];
  status = codes "queued";
  limit = codes "1";
  after = none;
}

abbrev filter : TxFilter
filter = filter_for query (some 1)

browse_lists_example :
    browse 3 query (tables TxStatus.queued none)
    ≡ map plain (listed filter (tables TxStatus.queued none))
unfolding filter_of matches_columns parse_uint unsigned sort_by
browse_lists_example =
    browse_lists 3 query filter (tables TxStatus.queued none) refl (λ id. ground arith)
      (omega arith)

abbrev resolved : Resolved
resolved = record {
  to_address = 8;
  value = pos (2 ^ 80);
  payload = [];
  token_contract = none;
  decimals = 18;
}

scan-created_columns_example :
    scan_transaction
      (created_columns (λ s. s) (new_transaction handler request first Priority.normal resolved))
    ≡ record (new_transaction handler request first Priority.normal resolved) {
      metadata = [];
      created_at = 10 / 1000 * 1000;
      updated_at = 10 / 1000 * 1000;
    }
scan-created_columns_example = scan-created_columns handler request first Priority.normal resolved
