-- ===== src/Service/Queues.antt =====
-- A pipeline works its queue off.
use evm_tx_sender.Prelude.{
  ℕ, zero, suc, ◌-◌, ◌++◌, ◌≤◌, ◌≡◌, sym, ◌∙◌, Text, Bool, true, Option, none, some, ok, Ensures-ok,
  List, [], ◌∷◌, update, count_if, length-select, arith,
}
use evm_tx_sender.Domain.{Transaction, TxAttempt, TxStateLog, ErrorCode, Actor, pipeline_actor}
use evm_tx_sender.Gas.{GasReplies}
use evm_tx_sender.Repo.{
  Db, has_id, update_tx, is_queued_for, count_queued_transactions, set_submitted, set_failed,
  set_nonce, mark_submitted, mark_failed, create_attempt, log_state_transition,
  assign_nonce_and_mark_pending, claim_next_queued,
}
use evm_tx_sender.Repo.Nonces.Invariant.{NonceInv}
use evm_tx_sender.Repo.Queue.{ClaimOutcome, claim_takes_oldest}
use evm_tx_sender.Worker.{World, Env}
use evm_tx_sender.Worker.Frame.{create_attempt_appends, assign_writes}
use evm_tx_sender.Pipeline.{Pipeline, on_claimed, turn}
use evm_tx_sender.Pipeline.Turn.{Claimed-is_stored}
use evm_tx_sender.Service.Closed.{Closed, process_tx_stays}
use evm_tx_sender.Service.Turns.{Claimed-pair, turn-Writes}
use evm_tx_sender.Service.Runs.{keeps}

-- An update that queues no row does not lengthen a queue.
count-update_le :
    {A : Type 0} (p q : A → Bool) (f : A → A) (xs : List A)
    → ((x : A) → q (f x) ≡ true → q x ≡ true)
    → count_if q (update p f xs) ≤ count_if q xs
count-update_le p q f [] h = omega arith
count-update_le p q f (x ∷ xs) h = ground (arith, h x, count-update_le p q f xs h)

module _ (s c : ℕ) where
  abbrev queued : List Transaction → ℕ
  queued rows = count_if (is_queued_for s c) rows

  -- The queue of the pair is no longer behind than before.
  abbrev Shorter : Db → Db → Type 0
  Shorter db db' = queued db'.transactions ≤ queued db.transactions

  same_rows : (db db' : Db) → db'.transactions ≡ db.transactions → Shorter db db'
  same_rows db db' e = rw e (omega arith)

  -- An update that queues no row.
  update_shorter :
      (id : ℕ) (f : Transaction → Transaction) (db : Db)
      → ((t : Transaction) → is_queued_for s c (f t) ≡ true → is_queued_for s c t ≡ true)
      → queued (update_tx id f db.transactions) ≤ queued db.transactions
  unfolding update_tx
  update_shorter id f db h = count-update_le (has_id id) (is_queued_for s c) f db.transactions h

  log-Shorter :
      (entry : TxStateLog) (db db' : Db) → log_state_transition entry db ≡ ok db' → Shorter db db'
  unfolding log_state_transition
  log-Shorter entry db db' e =
      Ensures-ok (Shorter db) (log_state_transition entry db) (omega arith) e

  submit-Shorter :
      (id h now : ℕ) (db db' : Db) → mark_submitted id h now db ≡ ok db' → Shorter db db'
  unfolding mark_submitted set_submitted
  submit-Shorter id h now db db' e =
      Ensures-ok (Shorter db) (mark_submitted id h now db)
        (update_shorter id (set_submitted h now) db (λ t k. ground arith)) e

  fail-Shorter :
      (id : ℕ) (code : ErrorCode) (reason : Text) (now : ℕ) (db db' : Db)
      → mark_failed id code reason now db ≡ ok db'
      → Shorter db db'
  unfolding mark_failed set_failed
  fail-Shorter id code reason now db db' e =
      Ensures-ok (Shorter db) (mark_failed id code reason now db)
        (update_shorter id (set_failed code reason now) db (λ t k. ground arith)) e

  attempt-Shorter : (a : TxAttempt) (db db' : Db) → create_attempt a db ≡ ok db' → Shorter db db'
  attempt-Shorter a db db' e =
      same_rows db db'
        (Ensures-ok
          (λ (u : Db).
            (u.transactions ≡ db.transactions)
            × (u.attempts ≡ db.attempts ++ a ∷ [])
            × (u.nonce_cursors ≡ db.nonce_cursors))
          (create_attempt a db) (create_attempt_appends a db) e).0

  assign-Shorter :
      (id now n : ℕ) (t : Transaction) (db db' : Db)
      → assign_nonce_and_mark_pending id t.sender t.chain_id now db ≡ ok (n, db')
      → Shorter db db'
  unfolding set_nonce
  assign-Shorter id now n t db db' e =
      let out =
        Ensures-ok
          (λ (out : ℕ × Db).
            (out.1.transactions ≡ update_tx id (set_nonce out.0 now) db.transactions)
            × (out.1.attempts ≡ db.attempts))
          (assign_nonce_and_mark_pending id t.sender t.chain_id now db)
          (assign_writes none id t.sender t.chain_id now db) e in
      rw (out.0) (update_shorter id (set_nonce n now) db (λ u k. k))

  Shorter-Closed : Closed Shorter
  Shorter-Closed = record {
    same = λ db. omega arith;
    trans = λ f g. omega arith;
    log = λ entry db db' e. log-Shorter entry db db' e;
    submit = λ id h now db db' e. submit-Shorter id h now db db' e;
    fail = λ id code reason now db db' e. fail-Shorter id code reason now db db' e;
    attempt = λ a db db' e. attempt-Shorter a db db' e;
    assign = λ id now n t db db' row e. assign-Shorter id now n t db db' e;
  }

-- A turn whose claim does not fail takes one row off a queue that is not empty.
turn_shortens :
    (p : Pipeline) (env : Env) (replies : GasReplies) (now : ℕ) (w : World)
    → NonceInv w.db
    → queued p.sender p.chain.chain_id (turn p env replies none now w).db.transactions
      ≤ queued p.sender p.chain.chain_id w.db.transactions - 1
unfolding turn
turn_shortens p env replies now w inv =
    go (claim_next_queued p.sender p.chain.chain_id actor now w.db)
      (claim_takes_oldest p.sender p.chain.chain_id now actor w.db inv.ids_unique)
  where
    actor : Actor
    actor = pipeline_actor p.sender p.chain.chain_id

    go :
        (out : Option Transaction × Db)
        → ClaimOutcome p.sender p.chain.chain_id now actor w.db out
        → queued p.sender p.chain.chain_id (on_claimed p env replies actor out w).db.transactions
          ≤ queued p.sender p.chain.chain_id w.db.transactions - 1
    go (none, db) k =
        unfold count_queued_transactions in
        let empty : queued p.sender p.chain.chain_id w.db.transactions ≡ 0 =
          sym (length-select (is_queued_for p.sender p.chain.chain_id) w.db.transactions) ∙ k.0 in
        rw (k.1, empty) (omega arith)
    go (some tx, db) k =
        unfold count_queued_transactions in
        let pair = Claimed-pair p.sender p.chain.chain_id now actor w.db db tx k in
        let row = Claimed-is_stored p.sender p.chain.chain_id now actor w.db db tx k in
        let fewer =
          process_tx_stays (Shorter p.sender p.chain.chain_id)
            (Shorter-Closed p.sender p.chain.chain_id) p env tx actor replies (record w { db = db })
            tx row pair.0 pair.1 in
        omega (
          arith,
          fewer,
          k.queue_shrinks,
          length-select (is_queued_for p.sender p.chain.chain_id) w.db.transactions,
          length-select (is_queued_for p.sender p.chain.chain_id) db.transactions,
        )

-- The turns of a pipeline one after the other, each with its own answers; no claim fails.
unfoldable pub turns : Pipeline → (ℕ → Env) → (ℕ → GasReplies) → (ℕ → ℕ) → ℕ → World → World
turns p envs replies clock zero w = w
turns p envs replies clock (suc n) w =
    turns p envs replies clock n (turn p (envs n) (replies n) none (clock n) w)

-- From tables with the invariant of the nonces on, a pipeline whose claims do not fail has emptied
-- its queue after as many turns as there are queued transactions of its pair, whatever else fails
-- on the way and however the node and the signer answer, if no request comes in between.
pub turns_drain :
    (p : Pipeline) (envs : ℕ → Env) (replies : ℕ → GasReplies) (clock : ℕ → ℕ) (n : ℕ) (w : World)
    → NonceInv w.db
    → count_queued_transactions p.sender p.chain.chain_id w.db ≤ n
    → count_queued_transactions p.sender p.chain.chain_id (turns p envs replies clock n w).db ≡ 0
unfolding turns
turns_drain p envs replies clock zero w inv enough = omega arith
turns_drain p envs replies clock (suc n) w inv enough =
    let w' = turn p (envs n) (replies n) none (clock n) w in
    turns_drain p envs replies clock n w'
      (keeps inv (turn-Writes p (envs n) (replies n) none (clock n) w inv.ids_unique))
      (unfold count_queued_transactions in
        omega (
          arith,
          turn_shortens p (envs n) (replies n) (clock n) w inv,
          length-select (is_queued_for p.sender p.chain.chain_id) w.db.transactions,
          length-select (is_queued_for p.sender p.chain.chain_id) w'.db.transactions,
        ))
