-- ===== src/Examples/Requests.antt =====
-- A request to send 5 units of the chain's coin.
use evm_tx_sender.Prelude.{ℕ, ◌≡◌, refl, Option, none, some}
use evm_tx_sender.Transfer.{
  reject, new_transaction, resolve_transfer, RequestAnswers, Reply, accepted, create,
}
use evm_tx_sender.Transfer.Outcomes.{Outcome}
use evm_tx_sender.Transfer.Rows.{IsRepeatable, create-Outcome, create_idempotent}
use evm_tx_sender.Repo.{get_transaction_by_idempotency_key, create_transaction}
use evm_tx_sender.Repo.Nonces.History.{empty_db}
use evm_tx_sender.Examples.{handler, request, first}

abbrev second : RequestAnswers
second = record { find_link = none; create_link = none; log_link = none; new_id = 2; now = 20 }

create-Outcome_example :
    Outcome handler request first empty_db (create handler request first empty_db)
create-Outcome_example = create-Outcome handler request first empty_db

create_idempotent_example :
    IsRepeatable handler request second (create handler request first empty_db)
create_idempotent_example = create_idempotent handler request first second empty_db refl

-- The request is accepted as the transaction 1.
abbrev id_of : Reply → Option ℕ
id_of (accepted r) = some r.id
id_of reply = none

request_accepted : id_of (create handler request first empty_db).0 ≡ some 1
unfolding create reject get_transaction_by_idempotency_key resolve_transfer create_transaction
    new_transaction
request_accepted = refl
