-- ===== src/Api/Transactions.antt =====
-- `Get` and `List` of `TransactionHandler`. `link` holds the connection errors of the calls, `none`
-- for success.
use evm_tx_sender.Prelude.{
  ℕ, Text, pos, Option, none, some, Result, ok, err, List, [], map, is_empty, to_lower, to_upper,
  if◌then◌else◌,
}
use evm_tx_sender.Domain.{
  Transaction, TxAttempt, AppError, new_app_error, missing_field, internal_error, invalid_chain,
}
use evm_tx_sender.Repo.{
  Db, TxFilter, get_transaction, get_attempts_by_transaction_id, list_transactions,
}
use evm_tx_sender.Worker.{guarded}
use evm_tx_sender.Api.Query.{parse_uint, atoi}
use evm_tx_sender.Api.Response.{TxResponse, to_response}

abbrev pub database_error : AppError
database_error = new_app_error internal_error 500

-- The attempts are left out where their query fails.
abbrev pub attempts_or_none : Result Text (List TxAttempt) → List TxAttempt
attempts_or_none (ok attempts) = attempts
attempts_or_none (err e) = []

abbrev pub on_found : Option Text → ℕ → Db → Result Text Transaction → Result AppError TxResponse
on_found link id db (err e) = err database_error
on_found link id db (ok tx) =
    ok
      (to_response tx (attempts_or_none (guarded link (ok (get_attempts_by_transaction_id id db)))))

-- `Get`, of the id in the path, if there is one. `GetTransaction` never returns nil without an
-- error, so the answer for that case is not reached.
unfoldable pub get : Option Text → Option Text → Option ℕ → Db → Result AppError TxResponse
unfolding to_response
get tx_link attempts_link none db = err (new_app_error missing_field 400)
get tx_link attempts_link (some id) db =
    on_found attempts_link id db (guarded tx_link (get_transaction id db))

-- The query of `List`; an absent parameter is an empty text.
pub record ListQuery : Type 0 where
  pub chain_id : Text
  pub sender : Text
  pub status : Text
  pub limit : Text
  pub after : Option ℕ

abbrev pub filter_for : ListQuery → Option ℕ → TxFilter
filter_for q chain_id = record {
  chain_id = chain_id;
  sender = to_lower q.sender;
  status = to_upper q.status;
  limit = if is_empty q.limit then pos 0 else atoi q.limit;
  after = q.after;
}

abbrev pub on_chain_id : ListQuery → Option ℕ → Result AppError TxFilter
on_chain_id q none = err (new_app_error invalid_chain 400)
on_chain_id q (some chain_id) = ok (filter_for q (some chain_id))

-- The filter that `List` reads from its query.
unfoldable pub filter_of : ListQuery → Result AppError TxFilter
filter_of q =
    if is_empty q.chain_id then ok (filter_for q none) else on_chain_id q (parse_uint q.chain_id)

abbrev pub answer_rows : Result Text (List Transaction) → Result AppError (List TxResponse)
answer_rows (err e) = err database_error
answer_rows (ok txs) = ok (map (λ t. to_response t []) txs)

abbrev pub on_filter :
    Option Text → Db → Result AppError TxFilter → Result AppError (List TxResponse)
on_filter link db (err e) = err e
on_filter link db (ok filter) = answer_rows (guarded link (ok (list_transactions filter db)))

-- `List`
unfoldable pub list : Option Text → ListQuery → Db → Result AppError (List TxResponse)
unfolding filter_of
list link q db = on_filter link db (filter_of q)
