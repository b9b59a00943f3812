-- ===== src/Pipeline/Recorded.antt =====
-- `processTx` stores the attempt before it hands the transaction to a node.
use evm_tx_sender.Prelude.{
  ℕ, ◌+◌, Text, ◌≡◌, refl, Option, none, some, Result, ok, err, Ensures, Ensures-map, [], ◌∷◌, ◌++◌,
  replicate,
}
use evm_tx_sender.Domain.{
  Transaction, TxAttempt, TxStatus, ErrorCode, GasParams, Actor, claimed_by_pipeline,
  broadcast_failed, signing_failed, estimation_reverted, internal_error,
}
use evm_tx_sender.Gas.{GasReplies}
use evm_tx_sender.Repo.{Db, call, set_nonce, update_tx, mark_submitted, mark_failed, create_attempt}
use evm_tx_sender.Worker.{World, Env, log_entry, log_transition}
use evm_tx_sender.Worker.Frame.{create_attempt_appends, assign_writes}
use evm_tx_sender.Worker.Ahead.{
  WrittenAhead, WrittenAhead-same, WrittenAhead-log, WrittenAhead-run, WrittenAhead-send,
}
use evm_tx_sender.Pipeline.{
  Pipeline, fail_tx, broadcast, max_broadcast_retries, finish, after_broadcast, send, first_attempt,
  store, sign, price, process_tx,
}

pub fail_tx-WrittenAhead :
    (env : Env) (i : ℕ) (tx : Transaction) (code : ErrorCode) (reason : Text) (actor : Actor)
    (w : World)
    → WrittenAhead w
    → WrittenAhead (fail_tx env i tx code reason actor w)
unfolding fail_tx
fail_tx-WrittenAhead env i tx code reason actor w h = WrittenAhead-log (env.link (i + 1)) _ _ (
    WrittenAhead-run (env.link i) (mark_failed tx.id code reason (env.clock i)) w
      (unfold mark_failed in refl) h)

module _ (p : Pipeline) (env : Env) (tx : Transaction) (actor : Actor) where
  finish-WrittenAhead :
      (link : Option Text) (nonce tx_hash now : ℕ) (w : World)
      → WrittenAhead w
      → WrittenAhead (
          finish p env tx actor nonce tx_hash
            (call link w.db (mark_submitted tx.id tx_hash now w.db))
            w)
  unfolding finish mark_submitted
  finish-WrittenAhead (some e) nonce tx_hash now w h = h
  finish-WrittenAhead none nonce tx_hash now w h = WrittenAhead-log (env.link 4) _ _ h

  after_broadcast-WrittenAhead :
      (last : Option Text) (nonce tx_hash : ℕ) (w : World)
      → WrittenAhead w
      → WrittenAhead (after_broadcast p env tx actor nonce tx_hash last w)
  unfolding after_broadcast
  after_broadcast-WrittenAhead (some e) nonce tx_hash w h =
      fail_tx-WrittenAhead env 3 tx broadcast_failed e actor w h
  after_broadcast-WrittenAhead none nonce tx_hash w h =
      finish-WrittenAhead (env.link 3) nonce tx_hash (env.clock 3) w h

  send-WrittenAhead :
      (link : Option Text) (r : Result Text Db) (nonce : ℕ) (a : TxAttempt) (w : World)
      → Ensures (λ db'. db'.attempts ≡ w.db.attempts ++ a ∷ []) r
      → WrittenAhead w
      → WrittenAhead (send p env tx actor nonce a.tx_hash (call link w.db r) w)
  unfolding send
  send-WrittenAhead (some e) r nonce a w k h = h
  send-WrittenAhead none (err e) nonce a w k h = h
  send-WrittenAhead none (ok db) nonce a w k h =
      after_broadcast-WrittenAhead last nonce a.tx_hash w' (WrittenAhead-send a made w w' k refl h)
    where
      made : ℕ
      made = (broadcast env.node max_broadcast_retries 0 none).0

      last : Option Text
      last = (broadcast env.node max_broadcast_retries 0 none).1

      w' : World
      w' = record { db = db; sent = w.sent ++ replicate made a.tx_hash }

  store-WrittenAhead :
      (r : Result Text (ℕ × Text)) (nonce : ℕ) (gas : GasParams) (w : World)
      → WrittenAhead w
      → WrittenAhead (store p env tx actor nonce gas r w)
  unfolding store
  store-WrittenAhead (err e) nonce gas w h =
      fail_tx-WrittenAhead env 2 tx signing_failed e actor w h
  store-WrittenAhead (ok (tx_hash, raw)) nonce gas w h =
      send-WrittenAhead (env.link 2) (create_attempt a w.db) nonce a w
        (Ensures-map (create_attempt a w.db) (λ db' k. k.1) (create_attempt_appends a w.db)) h
    where
      a : TxAttempt
      a = first_attempt p env tx actor gas tx_hash raw

  sign-WrittenAhead :
      (r : Result Text GasParams) (nonce : ℕ) (w : World)
      → WrittenAhead w
      → WrittenAhead (sign p env tx actor nonce r w)
  unfolding sign
  sign-WrittenAhead (err e) nonce w h =
      fail_tx-WrittenAhead env 2 tx estimation_reverted e actor w h
  sign-WrittenAhead (ok gas) nonce w h = store-WrittenAhead _ nonce gas w h

  price-WrittenAhead :
      (r : Result Text (ℕ × Db)) (replies : GasReplies) (w : World)
      → Ensures (λ (out : ℕ × Db). out.1.attempts ≡ w.db.attempts) r
      → WrittenAhead w
      → WrittenAhead (price p env tx actor replies r w)
  unfolding price
  price-WrittenAhead (err e) replies w k h =
      fail_tx-WrittenAhead env 2 tx internal_error _ actor w h
  price-WrittenAhead (ok (nonce, db)) replies w k h =
      sign-WrittenAhead _ nonce (record w { db = db })
        (WrittenAhead-same w (record w { db = db }) k refl h)

-- `processTx` keeps the attempts written ahead: if every hash ever handed to a node stands in a
-- stored attempt before, it does so behind, at every return and after every try, whatever the
-- database, the node and the signer answer. So no transaction is in the network that a restart
-- would not find in the tables.
pub process_tx-WrittenAhead :
    (p : Pipeline) (env : Env) (tx : Transaction) (actor : Actor) (replies : GasReplies) (w : World)
    → WrittenAhead w
    → WrittenAhead (process_tx p env tx actor replies w)
unfolding process_tx
process_tx-WrittenAhead p env tx actor replies w h =
    price-WrittenAhead p env tx actor _ replies w'
      (Ensures-map
        {P = λ (out : ℕ × Db).
          (out.1.transactions ≡ update_tx tx.id (set_nonce out.0 (env.clock 1)) w'.db.transactions)
          × (out.1.attempts ≡ w'.db.attempts)}
        _ (λ out k. k.1)
        (assign_writes (env.link 1) tx.id p.sender p.chain.chain_id (env.clock 1) w'.db))
      (WrittenAhead-log (env.link 0) _ w h)
  where
    w' : World
    w' =
        log_transition (env.link 0)
          (log_entry tx.id (some TxStatus.queued) TxStatus.pending actor claimed_by_pipeline) w
