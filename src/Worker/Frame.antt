-- ===== src/Worker/Frame.antt =====
-- What the calls of a worker leave alone: a log line, a dropped error, a row that is not theirs.
use evm_tx_sender.Prelude.{
  ℕ, Text, ◌≡◌, ◌≢◌, refl, ◌∙◌, ap, Bool, true, List, [], ◌∷◌, ◌++◌, Option, none, some, Ensures,
  Bool-cases, Option-cases, inl, inr, ◌==◌, ◌&&◌, arith,
}
use evm_tx_sender.Domain.{Transaction, TxStateLog, TxAttempt}
use evm_tx_sender.Repo.{
  Db, any, has_id, attempt_clashes, find_tx, update_tx, set_nonce, get_nonce_cursor, create_attempt,
  assign_nonce_and_mark_pending, log_state_transition,
}
use evm_tx_sender.Repo.Lookup.{KeepsId, find-update_tx_ne}
use evm_tx_sender.Worker.{World, guarded, log_transition}

-- Two states that differ in the log at most.
pub record SameButLog (w w' : World) : Type 0 where
  pub same_transactions : w'.db.transactions ≡ w.db.transactions
  pub same_attempts : w'.db.attempts ≡ w.db.attempts
  pub same_cursors : w'.db.nonce_cursors ≡ w.db.nonce_cursors
  pub same_sent : w'.sent ≡ w.sent

pub log-SameButLog :
    (link : Option Text) (entry : TxStateLog) (w : World)
    → SameButLog w (log_transition link entry w)
unfolding log_transition log_state_transition
log-SameButLog none entry w = record {
  same_transactions = refl;
  same_attempts = refl;
  same_cursors = refl;
  same_sent = refl;
}
log-SameButLog (some e) entry w = record {
  same_transactions = refl;
  same_attempts = refl;
  same_cursors = refl;
  same_sent = refl;
}

-- The rows of all transactions but one are as they were.
abbrev pub Others : ℕ → World → World → Type 0
Others id w w' = (j : ℕ) → j ≢ id → find_tx j w'.db.transactions ≡ find_tx j w.db.transactions

pub Others-update :
    (id : ℕ) (f : Transaction → Transaction) (base w w' : World)
    → KeepsId f
    → Others id base w
    → w'.db.transactions ≡ update_tx id f w.db.transactions
    → Others id base w'
Others-update id f base w w' keeps others e j ne =
    ap (find_tx j) e ∙ find-update_tx_ne id f keeps j w.db.transactions ne ∙ others j ne

pub Others-same :
    (id : ℕ) (base w w' : World)
    → Others id base w
    → w'.db.transactions ≡ w.db.transactions
    → Others id base w'
Others-same id base w w' others e j ne = ap (find_tx j) e ∙ others j ne

-- Whether an attempt with a hash is stored for a transaction.
abbrev pub is_attempt_of : ℕ → ℕ → TxAttempt → Bool
is_attempt_of tx_id tx_hash a = a.transaction_id == tx_id && a.tx_hash == tx_hash

abbrev pub has_attempt : ℕ → ℕ → Db → Bool
has_attempt tx_id tx_hash db = any (is_attempt_of tx_id tx_hash) db.attempts

pub any-append :
    (p : TxAttempt → Bool) (a : TxAttempt) (xs : List TxAttempt)
    → p a ≡ true
    → any p (xs ++ a ∷ []) ≡ true
any-append p a [] h = ground arith
any-append p a (x ∷ xs) h = ground (arith, any-append p a xs h)

pub any-append_old :
    (p : TxAttempt → Bool) (xs ys : List TxAttempt) → any p xs ≡ true → any p (xs ++ ys) ≡ true
any-append_old p [] ys h = cc
any-append_old p (x ∷ xs) ys h = ground (arith, any-append_old p xs ys)

-- A stored attempt stands behind the older ones, and the transactions stay.
pub create_attempt_appends :
    (a : TxAttempt) (db : Db)
    → Ensures
        (λ db'.
          (db'.transactions ≡ db.transactions)
          × (db'.attempts ≡ db.attempts ++ a ∷ [])
          × (db'.nonce_cursors ≡ db.nonce_cursors))
        (create_attempt a db)
unfolding create_attempt
create_attempt_appends a db = elim (Bool-cases (any (attempt_clashes a) db.attempts)) [
  | inl e ↦ rw e tt
  | inr e ↦ elim (Bool-cases (any (has_id a.transaction_id) db.transactions)) [
    | inl known ↦ rw (e, known) (refl, refl, refl)
    | inr unknown ↦ rw (e, unknown) tt
  ]
]

-- An assignment writes the nonce into one row, and no attempt.
pub assign_writes :
    (link : Option Text) (id s c now : ℕ) (db : Db)
    → Ensures
        (λ (out : ℕ × Db).
          (out.1.transactions ≡ update_tx id (set_nonce out.0 now) db.transactions)
          × (out.1.attempts ≡ db.attempts))
        (guarded link (assign_nonce_and_mark_pending id s c now db))
unfolding assign_nonce_and_mark_pending
assign_writes (some e) id s c now db = tt
assign_writes none id s c now db = elim (Option-cases (get_nonce_cursor s c db)) [
  | inl e ↦ rw (e, assign_nonce_and_mark_pending) tt
  | inr (r, e) ↦ rw (e, assign_nonce_and_mark_pending) (refl, refl)
]
