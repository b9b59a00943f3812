-- ===== src/Repo/Writes.antt =====
-- The methods of repo.go that write.
use evm_tx_sender.Prelude.{
  ℕ, ◌+◌, Text, Bool, ◌&&◌, ◌||◌, List, [], ◌∷◌, ◌++◌, Option, none, some, Result, ok, err, codes,
  text_eq, length, select, find?, update, ltb, ◌==◌, if◌then◌else◌,
}
use evm_tx_sender.Domain.{
  Transaction, TxStatus, status_eq, TxReceipt, ErrorCode, Actor, TxAttempt, AttemptStatus,
  NonceCursor, TxStateLog,
}
use evm_tx_sender.Repo.Tables.{Db, has_id, update_tx, any}
use evm_tx_sender.Repo.Rows.{
  as_stored, set_claimed, set_nonce, set_submitted, set_confirmed, set_included, set_reverted,
  set_back_to_submitted, set_failed, set_queued, set_attempt_status,
}

abbrev pub unique_violation : Text
unique_violation = codes "duplicate key value violates unique constraint"

abbrev pub foreign_key_violation : Text
foreign_key_violation = codes "insert violates foreign key constraint"

abbrev pub no_rows : Text
no_rows = codes "no rows in result set"

-- `PRIMARY KEY` on `id`, `UNIQUE` on `idempotency_key`.
abbrev pub clashes : Transaction → Transaction → Bool
clashes tx t = t.id == tx.id || text_eq t.idempotency_key tx.idempotency_key

unfoldable pub create_transaction : (Text → Text) → Transaction → Db → Result Text Db
unfolding as_stored
create_transaction normal_json tx db =
    if any (clashes tx) db.transactions
    then err unique_violation
    else ok (record db { transactions = db.transactions ++ as_stored normal_json tx ∷ [] })

abbrev on_tx : ℕ → (Transaction → Transaction) → Db → Db
on_tx id f db = record db { transactions = update_tx id f db.transactions }

-- Which rows `ClaimNextQueued` may take.
abbrev pub is_queued_for : ℕ → ℕ → Transaction → Bool
is_queued_for sender chain_id t =
    status_eq t.status TxStatus.queued && (t.sender == sender && t.chain_id == chain_id)

-- `ORDER BY created_at ASC LIMIT 1`; among rows of one time SQL may take any, here the first.
abbrev pub earlier : Transaction → Option Transaction → Transaction
earlier t none = t
earlier t (some u) = if ltb u.created_at t.created_at then u else t

unfoldable pub oldest : List Transaction → Option Transaction
oldest [] = none
oldest (t ∷ ts) = some (earlier t (oldest ts))

-- The claimed row is returned as it stands behind the update. One pipeline runs for each pair of
-- sender and chain, so no row of the pair is locked by another claim.
unfoldable pub claim_next_queued : ℕ → ℕ → Actor → ℕ → Db → Option Transaction × Db
unfolding oldest
claim_next_queued sender chain_id claimed_by now db =
    elim (oldest (select (is_queued_for sender chain_id) db.transactions)) [
      | none ↦ (none, db)
      | some t ↦ (some (set_claimed claimed_by now t), on_tx t.id (set_claimed claimed_by now) db)
    ]

unfoldable pub mark_pending : ℕ → ℕ → ℕ → Db → Result Text Db
mark_pending id nonce now db = ok (on_tx id (set_nonce nonce now) db)

unfoldable pub mark_submitted : ℕ → ℕ → ℕ → Db → Result Text Db
mark_submitted id tx_hash now db = ok (on_tx id (set_submitted tx_hash now) db)

unfoldable pub mark_confirmed : ℕ → TxReceipt → ℕ → Db → Result Text Db
mark_confirmed id receipt now db = ok (on_tx id (set_confirmed receipt now) db)

unfoldable pub mark_included : ℕ → TxReceipt → ℕ → Db → Result Text Db
mark_included id receipt now db = ok (on_tx id (set_included receipt now) db)

unfoldable pub revert_to_submitted : ℕ → ℕ → Db → Result Text Db
revert_to_submitted id now db = ok (on_tx id (set_back_to_submitted now) db)

unfoldable pub mark_reverted : ℕ → TxReceipt → ℕ → Db → Result Text Db
mark_reverted id receipt now db = ok (on_tx id (set_reverted receipt now) db)

unfoldable pub mark_failed : ℕ → ErrorCode → Text → ℕ → Db → Result Text Db
mark_failed id code reason now db = ok (on_tx id (set_failed code reason now) db)

abbrev pub is_pending : Transaction → Bool
is_pending t = status_eq t.status TxStatus.pending

-- The number of rows affected, and the tables.
unfoldable pub reset_pending_to_queued : ℕ → Db → ℕ × Db
reset_pending_to_queued now db = (
  length (select is_pending db.transactions),
  record db { transactions = update is_pending (set_queued now) db.transactions },
)

-- `PRIMARY KEY` on `id`, `UNIQUE (transaction_id, attempt_number)`.
abbrev pub attempt_clashes : TxAttempt → TxAttempt → Bool
attempt_clashes a b =
    b.id == a.id || (b.transaction_id == a.transaction_id && b.attempt_number == a.attempt_number)

-- The foreign key asks for the transaction.
unfoldable pub create_attempt : TxAttempt → Db → Result Text Db
create_attempt a db =
    if any (attempt_clashes a) db.attempts
    then err unique_violation
    else if any (has_id a.transaction_id) db.transactions
    then ok (record db { attempts = db.attempts ++ a ∷ [] })
    else err foreign_key_violation

unfoldable pub mark_attempt_status : ℕ → AttemptStatus → Db → Result Text Db
mark_attempt_status attempt_id status db = ok (record db {
  attempts = update (λ a. a.id == attempt_id) (set_attempt_status status) db.attempts;
})

abbrev pub is_cursor_of : ℕ → ℕ → NonceCursor → Bool
is_cursor_of sender chain_id c = c.sender == sender && c.chain_id == chain_id

unfoldable pub get_nonce_cursor : ℕ → ℕ → Db → Option NonceCursor
get_nonce_cursor sender chain_id db = find? (is_cursor_of sender chain_id) db.nonce_cursors

abbrev pub greatest : ℕ → ℕ → ℕ
greatest a b = if ltb a b then b else a

-- `INSERT … ON CONFLICT (sender, chain_id) DO UPDATE SET next_nonce = GREATEST (…)`
unfoldable pub init_nonce_cursor : ℕ → ℕ → ℕ → Db → Result Text Db
init_nonce_cursor sender chain_id nonce db = ok (record db {
  nonce_cursors =
      if any (is_cursor_of sender chain_id) db.nonce_cursors
      then update (is_cursor_of sender chain_id)
          (λ c. record c { next_nonce = greatest c.next_nonce nonce }) db.nonce_cursors
      else db.nonce_cursors
        ++ record { sender = sender; chain_id = chain_id; next_nonce = nonce } ∷ [];
})

abbrev pub advance : NonceCursor → NonceCursor
advance c = record c { next_nonce = c.next_nonce + 1 }

-- The nonce that is handed out, and the tables.
unfoldable pub increment_nonce_cursor : ℕ → ℕ → Db → Result Text (ℕ × Db)
unfolding get_nonce_cursor
increment_nonce_cursor sender chain_id db = elim (get_nonce_cursor sender chain_id db) [
  | none ↦ err no_rows
  | some c ↦ ok (
    c.next_nonce,
    record db { nonce_cursors = update (is_cursor_of sender chain_id) advance db.nonce_cursors },
  )
]

-- Both updates in one transaction: it commits as a whole or changes nothing.
unfoldable pub assign_nonce_and_mark_pending : ℕ → ℕ → ℕ → ℕ → Db → Result Text (ℕ × Db)
unfolding increment_nonce_cursor
assign_nonce_and_mark_pending tx_id sender chain_id now db =
    elim (increment_nonce_cursor sender chain_id db) [
      | err e ↦ err e
      | ok (assigned, db') ↦ ok (assigned, on_tx tx_id (set_nonce assigned now) db')
    ]

unfoldable pub set_nonce_cursor : ℕ → ℕ → ℕ → Db → Result Text Db
set_nonce_cursor sender chain_id nonce db = ok (record db {
  nonce_cursors =
      update (is_cursor_of sender chain_id) (λ c. record c { next_nonce = nonce }) db.nonce_cursors;
})

unfoldable pub log_state_transition : TxStateLog → Db → Result Text Db
log_state_transition entry db = ok (record db { tx_state_log = db.tx_state_log ++ entry ∷ [] })
