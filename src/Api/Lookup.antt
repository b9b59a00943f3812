-- ===== src/Api/Lookup.antt =====
-- What `Get` answers.
use evm_tx_sender.Prelude.{ℕ, Text, ◌≡◌, ◌⊎◌, Option, none, some, Result, ok, err, List, []}
use evm_tx_sender.Domain.{Transaction, TxAttempt, AppError}
use evm_tx_sender.Repo.{Db, find_tx, get_attempts_by_transaction_id}
use evm_tx_sender.Api.{TxResponse, to_response, database_error}

-- The row with the id, in full, with its attempts or, if their query failed, with none.
pub record Shows (id : ℕ) (link : Option Text) (db : Db) (r : TxResponse) : Type 0 where
  pub tx : Transaction
  pub found : find_tx id db.transactions ≡ some tx
  pub attempts : List TxAttempt
  pub shown : r ≡ to_response tx attempts
  pub listed : ((link ≡ none) × (attempts ≡ get_attempts_by_transaction_id id db)) ⊎ (attempts ≡ [])

-- How a lookup can end: with the row, or with a database error of the status 500.
abbrev pub Answers : ℕ → Option Text → Option Text → Db → Result AppError TxResponse → Type 0
Answers id tx_link link db (ok r) = Shows id link db r × (tx_link ≡ none)
Answers id tx_link link db (err e) =
    (e ≡ database_error) × ((find_tx id db.transactions ≡ none) ⊎ ((m : Text) × (tx_link ≡ some m)))
