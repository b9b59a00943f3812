-- ===== src/Repo/Nonces/History.antt =====
-- The invariant of the nonces over every sequence of writes that the program can make.
use evm_tx_sender.Prelude.{
  ℕ, Text, ◌≤◌, ◌≡◌, refl, subst, Bool-cases, inl, inr, some, ok, Ensures, Ensures-ok, List, [],
  arith,
}
use evm_tx_sender.Domain.{
  Transaction, TxReceipt, ErrorCode, Actor, TxAttempt, AttemptStatus, TxStateLog,
}
use evm_tx_sender.Repo.{
  Db, any, attempt_clashes, has_id, find_tx, create_transaction, claim_next_queued,
  assign_nonce_and_mark_pending, mark_pending, increment_nonce_cursor, mark_submitted,
  mark_confirmed, mark_included, revert_to_submitted, mark_reverted, mark_failed,
  reset_pending_to_queued, create_attempt, mark_attempt_status, init_nonce_cursor, set_nonce_cursor,
  log_state_transition, set_submitted, set_confirmed, set_included, set_reverted,
  set_back_to_submitted, set_failed, get_nonce_cursor,
}
use evm_tx_sender.Repo.Nonces.Invariant.{holders, NonceInv}
use evm_tx_sender.Repo.Nonces.Assign.{assign_nonce_unique}
use evm_tx_sender.Repo.Nonces.Kept.{
  KeepsNonce, update-NonceInv, claim-NonceInv, reset-NonceInv, create-NonceInv,
}
use evm_tx_sender.Repo.Nonces.Marked.{
  IsOpen, mark_pending-NonceInv, increment_nonce_cursor-NonceInv,
}
use evm_tx_sender.Repo.Nonces.Cursor.{set_nonce_cursor-NonceInv, init_nonce_cursor-NonceInv}

-- One write of repo.go that succeeds, with every method that writes. A nonce is assigned for the
-- sender and the chain of the transaction. `MarkPending` on a missing row writes nothing.
pub data Write (db db' : Db) : Type 0 where
  create :
      (normal_json : Text → Text) (tx : Transaction)
      → create_transaction normal_json tx db ≡ ok db'
      → Write db db'
  claim : (s c : ℕ) (a : Actor) (now : ℕ) → (claim_next_queued s c a now db).1 ≡ db' → Write db db'
  assign :
      (id now n : ℕ) (t : Transaction)
      → find_tx id db.transactions ≡ some t
      → assign_nonce_and_mark_pending id t.sender t.chain_id now db ≡ ok (n, db')
      → Write db db'
  mark :
      (id nonce now : ℕ) (t : Transaction)
      → find_tx id db.transactions ≡ some t
      → mark_pending id nonce now db ≡ ok db'
      → Write db db'
  increment : (s c n : ℕ) → increment_nonce_cursor s c db ≡ ok (n, db') → Write db db'
  submit : (id tx_hash now : ℕ) → mark_submitted id tx_hash now db ≡ ok db' → Write db db'
  include : (id : ℕ) (r : TxReceipt) (now : ℕ) → mark_included id r now db ≡ ok db' → Write db db'
  confirm : (id : ℕ) (r : TxReceipt) (now : ℕ) → mark_confirmed id r now db ≡ ok db' → Write db db'
  revert : (id : ℕ) (r : TxReceipt) (now : ℕ) → mark_reverted id r now db ≡ ok db' → Write db db'
  put_back : (id now : ℕ) → revert_to_submitted id now db ≡ ok db' → Write db db'
  fail :
      (id : ℕ) (code : ErrorCode) (reason : Text) (now : ℕ)
      → mark_failed id code reason now db ≡ ok db'
      → Write db db'
  reset : (now : ℕ) → (reset_pending_to_queued now db).1 ≡ db' → Write db db'
  attempt : (a : TxAttempt) → create_attempt a db ≡ ok db' → Write db db'
  attempt_status :
      (id : ℕ) (s : AttemptStatus) → mark_attempt_status id s db ≡ ok db' → Write db db'
  log : (entry : TxStateLog) → log_state_transition entry db ≡ ok db' → Write db db'
  init_cursor : (s c n : ℕ) → init_nonce_cursor s c n db ≡ ok db' → Write db db'
  set_cursor : (s c n : ℕ) → set_nonce_cursor s c n db ≡ ok db' → Write db db'

-- The nonces of a pair from a number on, which no transaction holds.
abbrev pub AreFree : ℕ → ℕ → ℕ → Db → Type 0
AreFree s c n db = (m : ℕ) → n ≤ m → holders s c m db.transactions ≡ 0

-- A cursor is set to where the nonces from there on are free, and a transaction is marked pending
-- with a nonce below the cursor of its pair that no other of the pair holds.
abbrev pub IsSafe : {db db' : Db} → Write db db' → Type 0
IsSafe {db} (init_cursor s c n e) = AreFree s c n db
IsSafe {db} (set_cursor s c n e) = AreFree s c n db
IsSafe {db} (mark id nonce now t row e) = IsOpen nonce t db
IsSafe _ = Unit

-- Any number of writes.
pub data Writes (db : Db) : Db → Type 0 where
  nothing : Writes db db
  followed : {db' db'' : Db} → Writes db db' → Write db' db'' → Writes db db''

abbrev pub AreSafe : {db db' : Db} → Writes db db' → Type 0
AreSafe nothing = Unit
AreSafe (followed earlier w) = AreSafe earlier × IsSafe w

-- The four columns at once.
all_kept :
    (f : Transaction → Transaction)
    → ((t : Transaction)
        → ((f t).id ≡ t.id)
          × ((f t).sender ≡ t.sender)
          × ((f t).chain_id ≡ t.chain_id)
          × ((f t).nonce ≡ t.nonce))
    → KeepsNonce f
all_kept f same = record {
  id_kept = λ t. (same t).0;
  sender_kept = λ t. (same t).1;
  chain_kept = λ t. (same t).2;
  nonce_kept = λ t. (same t).3;
}

-- The invariant says nothing of the attempts and the log.
same_tables :
    (db : Db) (attempts : List TxAttempt) (ls : List TxStateLog)
    → NonceInv db
    → NonceInv (record db { attempts = attempts; tx_state_log = ls })
unfolding get_nonce_cursor
same_tables db attempts ls inv = record {
  ids_unique = inv.ids_unique;
  nonces_unique = inv.nonces_unique;
  nonces_below = inv.nonces_below;
}

module _ (db : Db) (inv : NonceInv db) where
  attempt-NonceInv : (a : TxAttempt) → Ensures NonceInv (create_attempt a db)
  unfolding create_attempt get_nonce_cursor
  attempt-NonceInv a = elim (Bool-cases (any (attempt_clashes a) db.attempts)) [
    | inl e ↦ rw e tt
    | inr e ↦ elim (Bool-cases (any (has_id a.transaction_id) db.transactions)) [
      | inl known ↦ rw (e, known) (same_tables db _ db.tx_state_log inv)
      | inr unknown ↦ rw (e, unknown) tt
    ]
  ]

  submit-NonceInv : (id tx_hash now : ℕ) → Ensures NonceInv (mark_submitted id tx_hash now db)
  unfolding mark_submitted set_submitted
  submit-NonceInv id tx_hash now =
      update-NonceInv id (set_submitted tx_hash now) db (all_kept _ (λ t. (refl, refl, refl, refl)))
        inv

  include-NonceInv :
      (id : ℕ) (r : TxReceipt) (now : ℕ) → Ensures NonceInv (mark_included id r now db)
  unfolding mark_included set_included
  include-NonceInv id r now =
      update-NonceInv id (set_included r now) db (all_kept _ (λ t. (refl, refl, refl, refl))) inv

  confirm-NonceInv :
      (id : ℕ) (r : TxReceipt) (now : ℕ) → Ensures NonceInv (mark_confirmed id r now db)
  unfolding mark_confirmed set_confirmed
  confirm-NonceInv id r now =
      update-NonceInv id (set_confirmed r now) db (all_kept _ (λ t. (refl, refl, refl, refl))) inv

  revert-NonceInv :
      (id : ℕ) (r : TxReceipt) (now : ℕ) → Ensures NonceInv (mark_reverted id r now db)
  unfolding mark_reverted set_reverted
  revert-NonceInv id r now =
      update-NonceInv id (set_reverted r now) db (all_kept _ (λ t. (refl, refl, refl, refl))) inv

  put_back-NonceInv : (id now : ℕ) → Ensures NonceInv (revert_to_submitted id now db)
  unfolding revert_to_submitted set_back_to_submitted
  put_back-NonceInv id now =
      update-NonceInv id (set_back_to_submitted now) db (all_kept _ (λ t. (refl, refl, refl, refl)))
        inv

  fail-NonceInv :
      (id : ℕ) (code : ErrorCode) (reason : Text) (now : ℕ)
      → Ensures NonceInv (mark_failed id code reason now db)
  unfolding mark_failed set_failed
  fail-NonceInv id code reason now =
      update-NonceInv id (set_failed code reason now) db
        (all_kept _ (λ t. (refl, refl, refl, refl))) inv

  attempt_status-NonceInv :
      (id : ℕ) (s : AttemptStatus) → Ensures NonceInv (mark_attempt_status id s db)
  unfolding mark_attempt_status
  attempt_status-NonceInv id s = same_tables db _ db.tx_state_log inv

  log-NonceInv : (entry : TxStateLog) → Ensures NonceInv (log_state_transition entry db)
  unfolding log_state_transition
  log-NonceInv entry = same_tables db db.attempts _ inv

-- Every write of the program keeps the invariant of the nonces.
pub Write-NonceInv : {db db' : Db} → NonceInv db → (w : Write db db') → IsSafe w → NonceInv db'
Write-NonceInv {db} inv (create normal_json tx e) safe =
    Ensures-ok NonceInv _ (create-NonceInv normal_json tx db inv) e
Write-NonceInv {db} inv (claim s c a now e) safe =
    subst NonceInv e (claim-NonceInv s c a now db inv)
Write-NonceInv {db} inv (assign id now n t row e) safe =
    (assign_nonce_unique id now db t (n, _) inv row e).0
Write-NonceInv {db} inv (mark id nonce now t row e) free =
    Ensures-ok NonceInv _ (mark_pending-NonceInv id nonce now db t inv row free) e
Write-NonceInv {db} inv (increment s c n e) safe =
    Ensures-ok (λ (out : ℕ × Db). NonceInv out.1) _ (increment_nonce_cursor-NonceInv s c db inv) e
Write-NonceInv {db} inv (submit id h now e) safe =
    Ensures-ok NonceInv _ (submit-NonceInv db inv id h now) e
Write-NonceInv {db} inv (include id r now e) safe =
    Ensures-ok NonceInv _ (include-NonceInv db inv id r now) e
Write-NonceInv {db} inv (confirm id r now e) safe =
    Ensures-ok NonceInv _ (confirm-NonceInv db inv id r now) e
Write-NonceInv {db} inv (revert id r now e) safe =
    Ensures-ok NonceInv _ (revert-NonceInv db inv id r now) e
Write-NonceInv {db} inv (put_back id now e) safe =
    Ensures-ok NonceInv _ (put_back-NonceInv db inv id now) e
Write-NonceInv {db} inv (fail id c r now e) safe =
    Ensures-ok NonceInv _ (fail-NonceInv db inv id c r now) e
Write-NonceInv {db} inv (reset now e) safe = subst NonceInv e (reset-NonceInv now db inv)
Write-NonceInv {db} inv (attempt a e) safe = Ensures-ok NonceInv _ (attempt-NonceInv db inv a) e
Write-NonceInv {db} inv (attempt_status id s e) safe =
    Ensures-ok NonceInv _ (attempt_status-NonceInv db inv id s) e
Write-NonceInv {db} inv (log entry e) safe = Ensures-ok NonceInv _ (log-NonceInv db inv entry) e
Write-NonceInv {db} inv (init_cursor s c n e) free =
    Ensures-ok NonceInv _ (init_nonce_cursor-NonceInv s c n db inv free) e
Write-NonceInv {db} inv (set_cursor s c n e) free =
    Ensures-ok NonceInv _ (set_nonce_cursor-NonceInv s c n db inv free) e

abbrev pub empty_db : Db
empty_db = record { transactions = []; attempts = []; nonce_cursors = []; tx_state_log = [] }

-- After any sequence of the writes of repo.go on the empty tables, no two transactions of one sender
-- on one chain hold the same nonce, every nonce held is below the cursor, and no two transactions
-- share an id. Three things are asked of the writes: `AssignNonceAndMarkPending` is called with the
-- sender and the chain of the row; each cursor is set to where the nonces from there on are free;
-- and `MarkPending`, which nothing calls, is given a nonce below the cursor that no other row of the
-- pair holds. The sequence may interleave the pipelines, the workers and the API in any way.
pub Writes-NonceInv : {db : Db} → (ws : Writes empty_db db) → AreSafe ws → NonceInv db
Writes-NonceInv nothing safe = record {
  ids_unique = λ id. omega arith;
  nonces_unique = λ s c n. omega arith;
  nonces_below = λ s c n h. refl;
}
Writes-NonceInv (followed earlier w) safe = Write-NonceInv (Writes-NonceInv earlier safe.0) w safe.1
