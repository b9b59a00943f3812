-- ===== src/Transfer/Create.antt =====
-- `Create`, with `idempotencyMatch` and the responses.
use evm_tx_sender.Prelude.{
  ℕ, Text, Bool, ◌&&◌, Option, none, some, Result, ok, err, [], text_eq, is_empty, to_upper, ◌==◌,
  if◌then◌else◌,
}
use evm_tx_sender.Domain.{
  Transaction, TxStatus, internal_error, idempotency_conflict, invalid_priority, AppError,
  new_app_error, ChainConfig, Priority, normal, parse_priority, api_actor, transfer_requested,
}
use evm_tx_sender.Repo.{
  Db, call, get_transaction_by_idempotency_key, create_transaction, log_state_transition,
}
use evm_tx_sender.Worker.{guarded, log_entry}
use evm_tx_sender.Transfer.Request.{
  TransferRequest, TransferHandler, equal_fold, validate, Resolved, resolve_transfer,
}

-- `TransferResponse`; the text `transfer_type` says whether there is a contract.
pub record TransferResponse : Type 0 where
  pub id : ℕ
  pub status : TxStatus
  pub chain_id : ℕ
  pub sender : ℕ
  pub recipient : ℕ
  pub token : Text
  pub amount : Text
  pub token_contract : Option ℕ
  pub created_at : ℕ

-- What is written to the client; a chain that is missing from the map is a nil pointer.
pub data Reply : Type 0 where
  accepted : TransferResponse → Reply
  rejected : AppError → Reply
  panics : Reply

-- The answers of one request: the errors of the three database calls, the ULID and the time.
pub record RequestAnswers : Type 0 where
  pub find_link : Option Text
  pub create_link : Option Text
  pub log_link : Option Text
  pub new_id : ℕ
  pub now : ℕ

-- `idempotencyMatch`; addresses that differ in case only are the same number.
unfoldable pub idempotency_match : TransferHandler → Transaction → TransferRequest → Bool
idempotency_match h existing req =
    existing.chain_id == req.chain_id
    && (existing.sender == h.hex_to_address req.sender
        && (existing.transfer_recipient == h.hex_to_address req.recipient
            && (equal_fold existing.transfer_token (to_upper req.token)
                && text_eq existing.transfer_amount req.amount)))

-- `txToTransferResponse`, and the same fields of a new row.
abbrev pub tx_to_transfer_response : Transaction → TransferResponse
tx_to_transfer_response tx = record {
  id = tx.id;
  status = tx.status;
  chain_id = tx.chain_id;
  sender = tx.sender;
  recipient = tx.transfer_recipient;
  token = tx.transfer_token;
  amount = tx.transfer_amount;
  token_contract = tx.token_contract;
  created_at = tx.created_at;
}

unfoldable pub new_transaction :
    TransferHandler → TransferRequest → RequestAnswers → Priority → Resolved → Transaction
new_transaction h req answers priority params = record {
  id = answers.new_id;
  idempotency_key = req.idempotency_key;
  chain_id = req.chain_id;
  sender = h.hex_to_address req.sender;
  to_address = params.to_address;
  value = params.value;
  payload = params.payload;
  gas_limit = none;
  nonce = none;
  priority = priority;
  status = TxStatus.queued;
  error_reason = [];
  error_code = none;
  final_tx_hash = none;
  block_number = none;
  block_hash = none;
  gas_used = none;
  effective_gas_price = none;
  receipt_status = none;
  receipt_data = [];
  confirmations = 0;
  transfer_token = to_upper req.token;
  transfer_amount = req.amount;
  transfer_recipient = h.hex_to_address req.recipient;
  token_contract = params.token_contract;
  token_decimals = params.decimals;
  metadata = req.metadata;
  created_at = answers.now;
  updated_at = answers.now;
  submitted_at = none;
  confirmed_at = none;
  claimed_by = none;
  claimed_at = none;
}

-- Behind `CreateTransaction`: the error of the log is dropped.
abbrev pub on_created : RequestAnswers → Transaction → Db × Option Text → Reply × Db
on_created answers tx (db, some e) = (rejected (new_app_error internal_error 500), db)
on_created answers tx (db, none) = (
  accepted (tx_to_transfer_response tx),
  (call answers.log_link db (
      log_state_transition (log_entry tx.id none TxStatus.queued api_actor transfer_requested)
        db)).0,
)

abbrev pub priority_of : Text → Option Priority
priority_of s = if is_empty s then some normal else parse_priority s

abbrev pub on_priority :
    TransferHandler
    → TransferRequest
    → RequestAnswers
    → Resolved
    → Option Priority
    → Db
    → Reply × Db
on_priority h req answers params none db = (rejected (new_app_error invalid_priority 400), db)
on_priority h req answers params (some p) db =
    let tx = new_transaction h req answers p params in
    on_created answers tx (call answers.create_link db (create_transaction h.normal_json tx db))

abbrev pub on_resolved :
    TransferHandler → TransferRequest → RequestAnswers → Result AppError Resolved → Db → Reply × Db
on_resolved h req answers (err e) db = (rejected e, db)
on_resolved h req answers (ok params) db =
    on_priority h req answers params (priority_of req.priority) db

abbrev pub on_chain :
    TransferHandler → TransferRequest → RequestAnswers → Option ChainConfig → Db → Reply × Db
on_chain h req answers none db = (panics, db)
on_chain h req answers (some chain) db = on_resolved h req answers (resolve_transfer h req chain) db

abbrev pub on_existing :
    TransferHandler
    → TransferRequest
    → RequestAnswers
    → Result Text (Option Transaction)
    → Db
    → Reply × Db
on_existing h req answers (err e) db = (rejected (new_app_error internal_error 500), db)
on_existing h req answers (ok (some existing)) db =
    if idempotency_match h existing req
    then (accepted (tx_to_transfer_response existing), db)
    else (rejected (new_app_error idempotency_conflict 409), db)
on_existing h req answers (ok none) db = on_chain h req answers (h.chain_of req.chain_id) db

abbrev pub on_valid :
    TransferHandler → TransferRequest → RequestAnswers → Option AppError → Db → Reply × Db
on_valid h req answers (some e) db = (rejected e, db)
on_valid h req answers none db =
    on_existing h req answers
      (guarded answers.find_link (ok (get_transaction_by_idempotency_key req.idempotency_key db)))
      db

-- `Create` on a decoded request: the reply and the tables. The call of `NotifyPipeline`, which wakes
-- a pipeline, is added in `Service.Notified`.
unfoldable pub create : TransferHandler → TransferRequest → RequestAnswers → Db → Reply × Db
unfolding validate
create h req answers db = on_valid h req answers (validate h req) db
