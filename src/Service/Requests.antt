-- ===== src/Service/Requests.antt =====
-- A request to create a transfer makes writes of repo.go only.
use evm_tx_sender.Prelude.{
  ◌≡◌, refl, Text, Option, none, some, Result, ok, err, Bool-cases, inl, inr,
}
use evm_tx_sender.Domain.{
  Transaction, TxStatus, AppError, ChainConfig, Priority, api_actor, transfer_requested,
}
use evm_tx_sender.Repo.{
  Db, call, create_transaction, log_state_transition, get_transaction_by_idempotency_key,
}
use evm_tx_sender.Repo.Nonces.History.{create, log}
use evm_tx_sender.Worker.{guarded, log_entry}
use evm_tx_sender.Transfer.{
  TransferHandler, TransferRequest, RequestAnswers, Resolved, validate, resolve_transfer,
  new_transaction, on_created, priority_of, on_priority, on_resolved, on_chain, on_existing,
  on_valid, idempotency_match,
}
use evm_tx_sender.Transfer
use evm_tx_sender.Service.Calls.{
  SafeWrite, SafeWrites, no_writes, SafeWrites-trans, one_write, call-Writes,
}

module _ (h : TransferHandler) (req : TransferRequest) (answers : RequestAnswers) (db : Db) where
  on_created-Writes :
      (tx : Transaction) (link : Option Text) (r : Result Text Db)
      → ((db' : Db) → r ≡ ok db' → SafeWrite db db')
      → SafeWrites db (on_created answers tx (call link db r)).1
  on_created-Writes tx (some e) r write = no_writes
  on_created-Writes tx none (err e) write = no_writes
  on_created-Writes tx none (ok db') write = SafeWrites-trans (one_write (write db' refl)) (
      call-Writes answers.log_link db'
        (log_state_transition (log_entry tx.id none TxStatus.queued api_actor transfer_requested)
          db')
        (λ db'' e. (log (log_entry tx.id none TxStatus.queued api_actor transfer_requested) e, tt)))

  on_priority-Writes :
      (params : Resolved) (p : Option Priority)
      → SafeWrites db (on_priority h req answers params p db).1
  on_priority-Writes params none = no_writes
  on_priority-Writes params (some p) =
      let tx = new_transaction h req answers p params in
      on_created-Writes tx answers.create_link (create_transaction h.normal_json tx db)
        (λ db' e. (create h.normal_json tx e, tt))

  on_resolved-Writes :
      (r : Result AppError Resolved) → SafeWrites db (on_resolved h req answers r db).1
  on_resolved-Writes (err e) = no_writes
  on_resolved-Writes (ok params) = on_priority-Writes params (priority_of req.priority)

  on_chain-Writes : (o : Option ChainConfig) → SafeWrites db (on_chain h req answers o db).1
  on_chain-Writes none = no_writes
  on_chain-Writes (some chain) = on_resolved-Writes (resolve_transfer h req chain)

  on_existing-Writes :
      (r : Result Text (Option Transaction)) → SafeWrites db (on_existing h req answers r db).1
  on_existing-Writes (err e) = no_writes
  on_existing-Writes (ok none) = on_chain-Writes (h.chain_of req.chain_id)
  on_existing-Writes (ok (some existing)) = elim (Bool-cases (idempotency_match h existing req)) [
    | inl e ↦ rw e no_writes
    | inr e ↦ rw e no_writes
  ]

  on_valid-Writes : (o : Option AppError) → SafeWrites db (on_valid h req answers o db).1
  on_valid-Writes (some e) = no_writes
  on_valid-Writes none =
      on_existing-Writes
        (guarded answers.find_link (ok (get_transaction_by_idempotency_key req.idempotency_key db)))

  -- `Create` makes writes of repo.go only, and inserts a transaction without a nonce.
  pub create-Writes : SafeWrites db (Transfer.create h req answers db).1
  unfolding Transfer.create
  create-Writes = on_valid-Writes (validate h req)
