-- ===== src/Transfer/Rows.antt =====
-- What `Create` does to the tables, and that repeating a request does nothing more.
use evm_tx_sender.Prelude.{
  ◌+◌, ◌<◌, ◌≤◌, sym, ◌∙◌, arith, Text, ◌≡◌, refl, Bool, true, false, Option, none, some, Result,
  ok, err, List, [], ◌∷◌, ◌++◌, to_upper, text_eq, text_eq_refl, find?, ==_refl, if◌then◌else◌,
  Bool-cases, inl, inr,
}
use evm_tx_sender.Domain.{Transaction, AppError, ChainConfig, Priority, TxStateLog}
use evm_tx_sender.Repo.{
  Db, any, as_stored, call, unique_violation, clashes, get_transaction_by_idempotency_key,
  create_transaction, log_state_transition,
}
use evm_tx_sender.Worker.{guarded}
use evm_tx_sender.Transfer.{
  TransferRequest, TransferHandler, validate, Resolved, resolve_transfer, Reply, TransferResponse,
  accepted, rejected, panics, RequestAnswers, idempotency_match, tx_to_transfer_response,
  new_transaction, on_created, priority_of, on_priority, on_resolved, on_existing, on_valid, create,
}
use evm_tx_sender.Transfer.Outcomes.{
  match-IsSameRequest, IsSameRequest-match, new_row, not_valid, lost_lookup, conflict, not_resolved,
  bad_priority, lost_insert, taken_id, Outcome, refused, repeated, queued_new, validate-chain,
  true-false,
}

module _ (h : TransferHandler) (req : TransferRequest) (answers : RequestAnswers) (db : Db) where
  on_created-Outcome :
      (chain : ChainConfig) (p : Priority) (params : Resolved)
      → validate h req ≡ none
      → h.chain_of req.chain_id ≡ some chain
      → resolve_transfer h req chain ≡ ok params
      → get_transaction_by_idempotency_key req.idempotency_key db ≡ none
      → Outcome h req answers db (
          on_created answers (new_transaction h req answers p params) (
            call answers.create_link db
              (create_transaction h.normal_json (new_transaction h req answers p params) db)))
  unfolding create_transaction log_state_transition
  on_created-Outcome chain p params valid known resolved fresh =
      inserted answers.create_link refl (any (clashes tx) db.transactions) refl
    where
      tx : Transaction
      tx = new_transaction h req answers p params

      db' : Db
      db' = record db { transactions = db.transactions ++ new_row h req answers p params ∷ [] }

      logged :
          (link : Option Text) (entry : TxStateLog)
          → Outcome h req answers db (
            accepted (tx_to_transfer_response tx),
            (call link db' (log_state_transition entry db')).0,
          )
      logged (some e) entry =
          queued_new chain p params db' valid known resolved fresh refl refl refl
      logged none entry =
          queued_new chain p params (record db' { tx_state_log = db'.tx_state_log ++ entry ∷ [] })
            valid known resolved fresh refl refl refl

      inserted :
          (link : Option Text)
          → answers.create_link ≡ link
          → (clash : Bool) → any (clashes tx) db.transactions ≡ clash
          → Outcome h req answers db (
              on_created answers tx (call link db (if clash then err unique_violation else ok db')))
      inserted (some e) l clash c = refused _ (lost_insert e l)
      inserted none l true c = refused _ (taken_id p params c)
      inserted none l false c = logged answers.log_link _

  on_priority-Outcome :
      (chain : ChainConfig) (o : Option Priority) (params : Resolved)
      → priority_of req.priority ≡ o
      → validate h req ≡ none
      → h.chain_of req.chain_id ≡ some chain
      → resolve_transfer h req chain ≡ ok params
      → get_transaction_by_idempotency_key req.idempotency_key db ≡ none
      → Outcome h req answers db (on_priority h req answers params o db)
  on_priority-Outcome chain none params q valid known resolved fresh = refused _ (bad_priority q)
  on_priority-Outcome chain (some p) params q valid known resolved fresh =
      on_created-Outcome chain p params valid known resolved fresh

  on_resolved-Outcome :
      (chain : ChainConfig) (r : Result AppError Resolved)
      → validate h req ≡ none
      → h.chain_of req.chain_id ≡ some chain
      → resolve_transfer h req chain ≡ r
      → get_transaction_by_idempotency_key req.idempotency_key db ≡ none
      → Outcome h req answers db (on_resolved h req answers r db)
  on_resolved-Outcome chain (err e) valid known resolved fresh =
      refused e (not_resolved chain e known resolved)
  on_resolved-Outcome chain (ok params) valid known resolved fresh =
      on_priority-Outcome chain (priority_of req.priority) params refl valid known resolved fresh

  on_existing-Outcome :
      (link : Option Text) (o : Option Transaction)
      → answers.find_link ≡ link
      → validate h req ≡ none
      → get_transaction_by_idempotency_key req.idempotency_key db ≡ o
      → Outcome h req answers db (on_existing h req answers (guarded link (ok o)) db)
  on_existing-Outcome (some e) o l valid found = refused _ (lost_lookup e l)
  on_existing-Outcome none (some existing) l valid found =
      elim (Bool-cases (idempotency_match h existing req)) [
        | inl same ↦
            rw same (repeated existing valid found (match-IsSameRequest h req existing same))
        | inr other ↦ rw other (
            refused _ (
              conflict existing found (λ same.
                let t = IsSameRequest-match h req existing same in
                absurd (true-false (sym t ∙ other)))))
      ]
  on_existing-Outcome none none l valid found =
      let (chain, known) = validate-chain h req valid in
      rw known (on_resolved-Outcome chain (resolve_transfer h req chain) valid known refl found)

  -- However the database answers, `Create` does not panic, and ends in one of three ways. An error is
  -- reported for one of the reasons of `Refusal`, and the tables are as before. Or the key is known,
  -- the stored transaction has the chain, sender, recipient, token and amount of the request, it is
  -- reported, and the tables are as before; priority and metadata are not compared. Or the key is
  -- new, the transfer was let through, and one queued transaction without a nonce, with that key, is
  -- added behind the others and reported, while attempts and cursors are as before.
  pub create-Outcome : Outcome h req answers db (create h req answers db)
  unfolding create
  create-Outcome = go (validate h req) refl
    where
      go :
          (o : Option AppError)
          → validate h req ≡ o
          → Outcome h req answers db (on_valid h req answers o db)
      go (some e) v = refused e (not_valid e v)
      go none v =
          on_existing-Outcome answers.find_link
            (get_transaction_by_idempotency_key req.idempotency_key db) refl v refl

-- The row that a request adds is found under its key, and matches the request.
find-appended :
    (key : Text) (rows : List Transaction) (tx : Transaction)
    → find? (λ t. text_eq t.idempotency_key key) rows ≡ none
    → text_eq tx.idempotency_key key ≡ true
    → find? (λ t. text_eq t.idempotency_key key) (rows ++ tx ∷ []) ≡ some tx
find-appended key [] tx fresh mine = rw mine refl
find-appended key (t ∷ rows) tx fresh mine = elim (Bool-cases (text_eq t.idempotency_key key)) [
  | inl e ↦ absurd (let k = rw e at fresh in cc)
  | inr e ↦ rw e (find-appended key rows tx (rw e at fresh) mine)
]

new-matches :
    (h : TransferHandler) (req : TransferRequest) (answers : RequestAnswers) (p : Priority)
    (params : Resolved)
    → idempotency_match h (new_row h req answers p params) req ≡ true
unfolding idempotency_match new_transaction as_stored
new-matches h req answers p params =
    rw
      (
        ==_refl req.chain_id,
        ==_refl (h.hex_to_address req.sender),
        ==_refl (h.hex_to_address req.recipient),
        text_eq_refl (to_upper (to_upper req.token)),
        text_eq_refl req.amount,
      )
      refl

new-key :
    (h : TransferHandler) (req : TransferRequest) (answers : RequestAnswers) (p : Priority)
    (params : Resolved)
    → text_eq (new_row h req answers p params).idempotency_key req.idempotency_key ≡ true
unfolding new_transaction as_stored
new-key h req answers p params = text_eq_refl req.idempotency_key

appended :
    (key : Text) (db db' : Db) (tx : Transaction)
    → get_transaction_by_idempotency_key key db ≡ none
    → db'.transactions ≡ db.transactions ++ tx ∷ []
    → text_eq tx.idempotency_key key ≡ true
    → get_transaction_by_idempotency_key key db' ≡ some tx
unfolding get_transaction_by_idempotency_key
appended key db db' tx fresh rows mine = rw rows (find-appended key db.transactions tx fresh mine)

-- What a second, equal request ends in, if the database answers the lookup.
repeats :
    (h : TransferHandler) (req : TransferRequest) (again : RequestAnswers) (db : Db)
    (tx : Transaction)
    → validate h req ≡ none
    → again.find_link ≡ none
    → get_transaction_by_idempotency_key req.idempotency_key db ≡ some tx
    → idempotency_match h tx req ≡ true
    → create h req again db ≡ (accepted (tx_to_transfer_response tx), db)
unfolding create
repeats h req again db tx valid calm found same = rw (valid, calm, found, same) refl

-- Replies that differ in the time of the transaction at most, by less than a microsecond.
pub record SameReply (r r' : TransferResponse) : Type 0 where
  pub same_fields : r' ≡ record r { created_at = r'.created_at }
  pub time : (r'.created_at ≤ r.created_at) × (r.created_at < r'.created_at + 1000)

-- An accepted request can be repeated, with the same reply but for the time, and no further change.
abbrev pub IsRepeatable : TransferHandler → TransferRequest → RequestAnswers → Reply × Db → Type 0
IsRepeatable h req again (accepted r, db') =
    (r' : TransferResponse) × (create h req again db' ≡ (accepted r', db')) × SameReply r r'
IsRepeatable h req again (rejected e, db') = Unit
IsRepeatable h req again (panics, db') = Unit

fresh_time :
    (h : TransferHandler) (req : TransferRequest) (answers : RequestAnswers) (p : Priority)
    (params : Resolved)
    → SameReply
        (tx_to_transfer_response (new_transaction h req answers p params))
        (tx_to_transfer_response (new_row h req answers p params))
unfolding new_transaction as_stored
fresh_time h req answers p params = record { same_fields = refl; time = (omega arith, omega arith) }

-- A request that was accepted, first or not, can be sent again at any time and with any new ULID:
-- if the database answers the lookup of the key, and nothing else was written meanwhile, it is
-- accepted, the tables stay as they are, and the reply is the same, with the same id, but for the
-- time of the transaction, of which the second reply has the whole microseconds.
pub create_idempotent :
    (h : TransferHandler) (req : TransferRequest) (answers again : RequestAnswers) (db : Db)
    → again.find_link ≡ none
    → IsRepeatable h req again (create h req answers db)
create_idempotent h req answers again db calm =
    go (create h req answers db) (create-Outcome h req answers db)
  where
    go : (out : Reply × Db) → Outcome h req answers db out → IsRepeatable h req again out
    go _ (refused e why) = tt
    go _ (repeated existing valid there same) = (
      tx_to_transfer_response existing,
      repeats h req again db existing valid calm there (IsSameRequest-match h req existing same),
      record { same_fields = refl; time = (omega arith, omega arith) },
    )
    go _
          (queued_new chain p params db' valid known resolved fresh rows same_attempts
            same_cursors) =
        (
          tx_to_transfer_response (new_row h req answers p params),
          repeats h req again db' (new_row h req answers p params) valid calm
              (appended req.idempotency_key db db' (new_row h req answers p params) fresh rows
                (new-key h req answers p params))
              (new-matches h req answers p params),
          fresh_time h req answers p params,
        )
