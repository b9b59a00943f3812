-- ===== src/Service/Closed.antt =====
-- What holds of the tables across `processTx` holds of each of its writes.
use evm_tx_sender.Prelude.{
  ℕ, ◌+◌, ◌≡◌, refl, ap, ◌∙◌, Text, Option, none, some, Result, ok, err, ◌++◌, replicate,
}
use evm_tx_sender.Domain.{
  Transaction, TxAttempt, TxStatus, ErrorCode, GasParams, Actor, TxStateLog, claimed_by_pipeline,
  broadcast_failed, signing_failed, estimation_reverted, internal_error,
}
use evm_tx_sender.Gas.{GasReplies}
use evm_tx_sender.Repo.{
  Db, call, find_tx, mark_submitted, mark_failed, create_attempt, log_state_transition,
  assign_nonce_and_mark_pending,
}
use evm_tx_sender.Worker.{World, Env, guarded, run, log_entry, log_transition}
use evm_tx_sender.Worker.Frame.{log-SameButLog}
use evm_tx_sender.Pipeline.{
  Pipeline, fail_tx, broadcast, max_broadcast_retries, finish, after_broadcast, send, first_attempt,
  store, sign, price, process_tx,
}

-- A relation between the tables before and behind that contains every write of `processTx`.
pub record Closed (R : Db → Db → Type 0) : Type 0 where
  pub same : (db : Db) → R db db
  pub trans : {a b c : Db} → R a b → R b c → R a c
  pub log : (entry : TxStateLog) (db db' : Db) → log_state_transition entry db ≡ ok db' → R db db'
  pub submit :
      (id tx_hash now : ℕ) (db db' : Db) → mark_submitted id tx_hash now db ≡ ok db' → R db db'
  pub fail :
      (id : ℕ) (code : ErrorCode) (reason : Text) (now : ℕ) (db db' : Db)
      → mark_failed id code reason now db ≡ ok db'
      → R db db'
  pub attempt : (a : TxAttempt) (db db' : Db) → create_attempt a db ≡ ok db' → R db db'
  pub assign :
      (id now n : ℕ) (t : Transaction) (db db' : Db)
      → find_tx id db.transactions ≡ some t
      → assign_nonce_and_mark_pending id t.sender t.chain_id now db ≡ ok (n, db')
      → R db db'

module _ (R : Db → Db → Type 0) (rules : Closed R) where
  run_within :
      (link : Option Text) (write : Db → Result Text Db) (w : World)
      → ((db' : Db) → write w.db ≡ ok db' → R w.db db')
      → R w.db (run link write w).db
  unfolding run
  run_within (some e) write w is_write = rules.same w.db
  run_within none write w is_write = go (write w.db) is_write
    where
      go :
          (r : Result Text Db)
          → ((db' : Db) → r ≡ ok db' → R w.db db')
          → R w.db (call none w.db r).0
      go (ok db') h = h db' refl
      go (err e) h = rules.same w.db

  log_within :
      (link : Option Text) (entry : TxStateLog) (w : World)
      → R w.db (log_transition link entry w).db
  unfolding log_transition
  log_within link entry w =
      run_within link (log_state_transition entry) w (λ db' e. rules.log entry w.db db' e)

  fail_tx_stays :
      (env : Env) (i : ℕ) (tx : Transaction) (code : ErrorCode) (reason : Text) (actor : Actor)
      (w : World)
      → R w.db (fail_tx env i tx code reason actor w).db
  unfolding fail_tx
  fail_tx_stays env i tx code reason actor w =
      rules.trans
        (run_within (env.link i) (mark_failed tx.id code reason (env.clock i)) w
          (λ db' e. rules.fail tx.id code reason (env.clock i) w.db db' e))
        (log_within (env.link (i + 1)) _
          (run (env.link i) (mark_failed tx.id code reason (env.clock i)) w))

  module _ (p : Pipeline) (env : Env) (tx : Transaction) (actor : Actor) where
    finish_stays :
        (link : Option Text) (nonce tx_hash now : ℕ) (w : World) (r : Result Text Db)
        → ((db' : Db) → r ≡ ok db' → R w.db db')
        → R w.db (finish p env tx actor nonce tx_hash (call link w.db r) w).db
    unfolding finish
    finish_stays (some e) nonce tx_hash now w r write = rules.same w.db
    finish_stays none nonce tx_hash now w (err e) write = rules.same w.db
    finish_stays none nonce tx_hash now w (ok db) write =
        rules.trans (write db refl) (log_within (env.link 4) _ (record w { db = db }))

    after_broadcast_stays :
        (last : Option Text) (nonce tx_hash : ℕ) (w : World)
        → R w.db (after_broadcast p env tx actor nonce tx_hash last w).db
    unfolding after_broadcast
    after_broadcast_stays (some e) nonce tx_hash w =
        fail_tx_stays env 3 tx broadcast_failed e actor w
    after_broadcast_stays none nonce tx_hash w =
        finish_stays (env.link 3) nonce tx_hash (env.clock 3) w
          (mark_submitted tx.id tx_hash (env.clock 3) w.db)
          (λ db' e. rules.submit tx.id tx_hash (env.clock 3) w.db db' e)

    send_stays :
        (link : Option Text) (nonce tx_hash : ℕ) (w : World) (r : Result Text Db)
        → ((db' : Db) → r ≡ ok db' → R w.db db')
        → R w.db (send p env tx actor nonce tx_hash (call link w.db r) w).db
    unfolding send
    send_stays (some e) nonce tx_hash w r write = rules.same w.db
    send_stays none nonce tx_hash w (err e) write = rules.same w.db
    send_stays none nonce tx_hash w (ok db) write = rules.trans (write db refl) (
        after_broadcast_stays (broadcast env.node max_broadcast_retries 0 none).1 nonce tx_hash
          (record w {
            db = db;
            sent = w.sent ++ replicate (broadcast env.node max_broadcast_retries 0 none).0 tx_hash;
          }))

    store_stays :
        (r : Result Text (ℕ × Text)) (nonce : ℕ) (gas : GasParams) (w : World)
        → R w.db (store p env tx actor nonce gas r w).db
    unfolding store
    store_stays (err e) nonce gas w = fail_tx_stays env 2 tx signing_failed e actor w
    store_stays (ok (tx_hash, raw)) nonce gas w =
        send_stays (env.link 2) nonce tx_hash w
          (create_attempt (first_attempt p env tx actor gas tx_hash raw) w.db)
          (λ db' e. rules.attempt (first_attempt p env tx actor gas tx_hash raw) w.db db' e)

    sign_stays :
        (r : Result Text GasParams) (nonce : ℕ) (w : World)
        → R w.db (sign p env tx actor nonce r w).db
    unfolding sign
    sign_stays (err e) nonce w = fail_tx_stays env 2 tx estimation_reverted e actor w
    sign_stays (ok gas) nonce w = store_stays _ nonce gas w

    price_stays :
        (link : Option Text) (r : Result Text (ℕ × Db)) (replies : GasReplies) (w : World)
        → ((n : ℕ) (db' : Db) → r ≡ ok (n, db') → R w.db db')
        → R w.db (price p env tx actor replies (guarded link r) w).db
    unfolding price
    price_stays (some e) r replies w write = fail_tx_stays env 2 tx internal_error _ actor w
    price_stays none (err e) replies w write = fail_tx_stays env 2 tx internal_error _ actor w
    price_stays none (ok (nonce, db)) replies w write =
        rules.trans (write nonce db refl) (sign_stays _ nonce (record w { db = db }))

  -- `processTx` on a transaction whose row is one of the pipeline's pair makes writes only.
  pub process_tx_stays :
      (p : Pipeline) (env : Env) (tx : Transaction) (actor : Actor) (replies : GasReplies)
      (w : World) (t : Transaction)
      → find_tx tx.id w.db.transactions ≡ some t
      → t.sender ≡ p.sender
      → t.chain_id ≡ p.chain.chain_id
      → R w.db (process_tx p env tx actor replies w).db
  unfolding process_tx
  process_tx_stays p env tx actor replies w t row sender chain =
      rules.trans (log_within (env.link 0) entry w) (
        price_stays p env tx actor (env.link 1)
          (assign_nonce_and_mark_pending tx.id p.sender p.chain.chain_id (env.clock 1) w'.db)
          replies w'
          (λ n db' e.
            rules.assign tx.id (env.clock 1) n t w'.db db' (ap (find_tx tx.id) same ∙ row)
              (rw (sender, chain) e)))
    where
      entry : TxStateLog
      entry = log_entry tx.id (some TxStatus.queued) TxStatus.pending actor claimed_by_pipeline

      w' : World
      w' = log_transition (env.link 0) entry w

      same : w'.db.transactions ≡ w.db.transactions
      same = (log-SameButLog (env.link 0) entry w).same_transactions
