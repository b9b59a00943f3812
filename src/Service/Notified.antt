-- ===== src/Service/Notified.antt =====
-- `Create` together with the notification that it sends behind an insert.
use evm_tx_sender.Prelude.{
  ◌^◌, ◌<◌, ◌≡◌, ◌⊎◌, inl, inr, refl, Text, Option, none, some, Result, ok, err, List, [], ◌∷◌,
  ◌++◌, All,
}
use evm_tx_sender.Domain.{Transaction, TxStatus, AppError, address_text}
use evm_tx_sender.Repo.{Db, as_stored, get_transaction_by_idempotency_key}
use evm_tx_sender.Worker.{guarded}
use evm_tx_sender.Manager.Launch.{Running, notify_pipeline}
use evm_tx_sender.Manager.Wake.{IsAddress, woken, notify_pipeline-woken}
use evm_tx_sender.Transfer.{
  TransferHandler, TransferRequest, RequestAnswers, Reply, accepted, rejected, panics,
  new_transaction, validate, on_valid, create,
}
use evm_tx_sender.Transfer.Outcomes.{Outcome, new_row, refused, repeated, queued_new}
use evm_tx_sender.Transfer.Rows.{create-Outcome}

-- `NotifyPipeline` is called where the lookup of the key found nothing and the request was accepted.
abbrev pub notify_created : Reply → Result Text (Option Transaction) → List Running → List Running
notify_created (accepted r) (ok none) ps = notify_pipeline (address_text r.sender) r.chain_id ps
notify_created (accepted r) (ok (some existing)) ps = ps
notify_created (accepted r) (err e) ps = ps
notify_created (rejected e) existing ps = ps
notify_created panics existing ps = ps

-- The lookup of the idempotency key.
abbrev pub existing_row : TransferRequest → RequestAnswers → Db → Result Text (Option Transaction)
existing_row req answers db =
    guarded answers.find_link (ok (get_transaction_by_idempotency_key req.idempotency_key db))

-- `Create` on the tables and the pipelines that run.
unfoldable pub create_and_notify :
    TransferHandler
    → TransferRequest
    → RequestAnswers
    → Db
    → List Running
    → Reply × Db × List Running
unfolding create
create_and_notify h req answers db ps =
    let (reply, db') = create h req answers db in
    (reply, db', notify_created reply (existing_row req answers db) ps)

-- Either no row is added and no pipeline is woken, or one queued row is added and just the
-- pipelines of its pair are.
abbrev pub IsWoken : Db → List Running → Reply × Db × List Running → Type 0
IsWoken db ps (reply, db', ps') =
    ((db'.transactions ≡ db.transactions) × (ps' ≡ ps))
    ⊎ ((t : Transaction) × (t.status ≡ TxStatus.queued)
        × (db'.transactions ≡ db.transactions ++ t ∷ [])
        × (ps' ≡ woken t.sender t.chain_id ps))

module _ (h : TransferHandler) (req : TransferRequest) (db : Db) (ps : List Running) where
  -- A lookup that fails ends the request.
  lookup_failed :
      (answers : RequestAnswers) (e : Text) (o : Option AppError)
      → answers.find_link ≡ some e
      → IsWoken db ps (
          let (reply, db') = on_valid h req answers o db in
          (reply, db', notify_created reply (existing_row req answers db) ps))
  lookup_failed answers e (some a) k = inl (refl, refl)
  lookup_failed answers e none k = rw k (inl (refl, refl))

  found_nothing :
      (answers : RequestAnswers)
      → answers.find_link ≡ none
      → ((s : Text) → h.hex_to_address s < 16 ^ 40)
      → All IsAddress ps
      → (out : Reply × Db) → Outcome h req answers db out
      → IsWoken db ps (out.0, out.1, notify_created out.0 (existing_row req answers db) ps)
  unfolding new_transaction as_stored
  found_nothing answers k valid running _ (refused e why) = inl (refl, refl)
  found_nothing answers k valid running _ (repeated existing v there same) =
      rw (k, there) (inl (refl, refl))
  found_nothing answers k valid running _
        (queued_new chain p params db' v known resolved fresh rows same_attempts same_cursors) =
      rw (k, fresh)
        (inr (
          new_row h req answers p params,
          refl,
          rows,
          notify_pipeline-woken _ _ ps (valid req.sender) running,
        ))

-- A request adds at most one row, and wakes the pipelines of the pair of the row that it adds, and no
-- other pipeline: no transaction is queued without a notification, and no notification is sent
-- without one; if go-ethereum's addresses have 160 bits.
pub create_and_notify-IsWoken :
    (h : TransferHandler) (req : TransferRequest) (answers : RequestAnswers) (db : Db)
    (ps : List Running)
    → ((s : Text) → h.hex_to_address s < 16 ^ 40)
    → All IsAddress ps
    → IsWoken db ps (create_and_notify h req answers db ps)
unfolding create_and_notify create
create_and_notify-IsWoken h req answers db ps valid running = go answers.find_link refl
  where
    go :
        (l : Option Text)
        → answers.find_link ≡ l
        → IsWoken db ps (create_and_notify h req answers db ps)
    go (some e) k = lookup_failed h req db ps answers e (validate h req) k
    go none k =
        found_nothing h req db ps answers k valid running (create h req answers db)
          (create-Outcome h req answers db)
