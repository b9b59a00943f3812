-- ===== src/Pipeline/Process.antt =====
-- The steps of `processTx`, each up to the next early return.
use evm_tx_sender.Prelude.{
  ℕ, zero, suc, ◌+◌, Text, Option, none, some, Result, ok, err, [], ◌++◌, codes, replicate,
}
use evm_tx_sender.Domain.{
  pipeline_actor, Transaction, TxStatus, TxAttempt, attempt_broadcast, GasParams, ErrorCode,
  internal_error, estimation_reverted, signing_failed, broadcast_failed, Actor, claimed_by_pipeline,
  failure, broadcast_with, ChainConfig,
}
use evm_tx_sender.Gas.{GasReplies, estimate}
use evm_tx_sender.Repo.{
  claim_next_queued, Db, call, assign_nonce_and_mark_pending, create_attempt, mark_submitted,
  mark_failed,
}
use evm_tx_sender.Worker.{
  World, Env, guarded, run, log_entry, log_transition, Signer, build_and_sign,
}

-- `Pipeline`, without the channels and the log.
pub record Pipeline : Type 0 where
  pub sender : ℕ
  pub chain : ChainConfig
  pub signer : Signer

-- `maxBroadcastRetries`
abbrev pub max_broadcast_retries : ℕ
max_broadcast_retries = 5

-- `failTx`: the transaction is marked, and the change logged, by two calls from `i` on.
unfoldable pub fail_tx : Env → ℕ → Transaction → ErrorCode → Text → Actor → World → World
unfolding run log_transition
fail_tx env i tx code reason actor w =
    log_transition (env.link (i + 1))
      (log_entry tx.id (some tx.status) TxStatus.failed actor (failure reason))
      (run (env.link i) (mark_failed tx.id code reason (env.clock i)) w)

-- The loop of step 5, with the tries left, the tries made and the last error: the tries made in
-- all, and the error that is left.
unfoldable pub broadcast : (ℕ → Option Text) → ℕ → ℕ → Option Text → ℕ × Option Text
broadcast node zero made last = (made, last)
broadcast node (suc left) made last = elim (node made) [
  | none ↦ (suc made, none)
  | some e ↦ broadcast node left (suc made) (some e)
]

module _ (p : Pipeline) (env : Env) (tx : Transaction) (actor : Actor) where
  -- Step 6, on the error of `MarkSubmitted`.
  unfoldable pub finish : ℕ → ℕ → Db × Option Text → World → World
  unfolding log_transition
  finish nonce tx_hash (db, some e) w = record w { db = db }
  finish nonce tx_hash (db, none) w =
      log_transition (env.link 4)
        (log_entry tx.id (some TxStatus.pending) TxStatus.submitted actor
          (broadcast_with tx_hash nonce))
        (record w { db = db })

  -- Behind the loop of step 5.
  unfoldable pub after_broadcast : ℕ → ℕ → Option Text → World → World
  unfolding fail_tx finish
  after_broadcast nonce tx_hash (some e) w = fail_tx env 3 tx broadcast_failed e actor w
  after_broadcast nonce tx_hash none w =
      finish nonce tx_hash
        (call (env.link 3) w.db (mark_submitted tx.id tx_hash (env.clock 3) w.db)) w

  -- Step 5, on the error of `CreateAttempt`.
  unfoldable pub send : ℕ → ℕ → Db × Option Text → World → World
  unfolding after_broadcast broadcast
  send nonce tx_hash (db, some e) w = record w { db = db }
  send nonce tx_hash (db, none) w =
      let (made, last) = broadcast env.node max_broadcast_retries 0 none in
      after_broadcast nonce tx_hash last
        (record w { db = db; sent = w.sent ++ replicate made tx_hash })

  abbrev pub first_attempt : GasParams → ℕ → Text → TxAttempt
  first_attempt gas tx_hash raw = record {
    id = env.new_id;
    transaction_id = tx.id;
    attempt_number = 1;
    tx_hash = tx_hash;
    gas = gas;
    raw_tx = raw;
    status = attempt_broadcast;
    error_reason = [];
    created_at = env.clock 2;
    confirmed_at = none;
  }

  -- Step 4, on the result of step 3.
  unfoldable pub store : ℕ → GasParams → Result Text (ℕ × Text) → World → World
  unfolding fail_tx send
  store nonce gas (err e) w = fail_tx env 2 tx signing_failed e actor w
  store nonce gas (ok (tx_hash, raw)) w =
      send nonce tx_hash
        (call (env.link 2) w.db (create_attempt (first_attempt gas tx_hash raw) w.db)) w

  -- Step 3, on the result of step 2.
  unfoldable pub sign : ℕ → Result Text GasParams → World → World
  unfolding fail_tx store build_and_sign
  sign nonce (err e) w = fail_tx env 2 tx estimation_reverted e actor w
  sign nonce (ok gas) w =
      store nonce gas (build_and_sign p.signer p.sender p.chain.chain_id tx nonce gas) w

  -- Step 2, on the result of step 1.
  unfoldable pub price : GasReplies → Result Text (ℕ × Db) → World → World
  unfolding fail_tx sign estimate
  price replies (err e) w =
      fail_tx env 2 tx internal_error (codes "nonce assignment: " ++ e) actor w
  price replies (ok (nonce, db)) w =
      sign nonce (estimate replies p.chain tx.priority) (record w { db = db })

  unfoldable pub process_tx : GasReplies → World → World
  unfolding price log_transition
  process_tx replies w =
      let w' =
        log_transition (env.link 0)
          (log_entry tx.id (some TxStatus.queued) TxStatus.pending actor claimed_by_pipeline) w in
      price replies
        (guarded (env.link 1)
          (assign_nonce_and_mark_pending tx.id p.sender p.chain.chain_id (env.clock 1) w'.db))
        w'

-- What `Run` does with the result of a claim: without a transaction it waits.
abbrev pub on_claimed :
    Pipeline → Env → GasReplies → Actor → Option Transaction × Db → World → World
on_claimed p env replies actor (none, db) w = record w { db = db }
on_claimed p env replies actor (some tx, db) w =
    process_tx p env tx actor replies (record w { db = db })

-- One turn of the loop of `Run`, on the error of the claim and the time of it.
unfoldable pub turn : Pipeline → Env → GasReplies → Option Text → ℕ → World → World
unfolding process_tx claim_next_queued
turn p env replies (some e) now w = w
turn p env replies none now w =
    let actor = pipeline_actor p.sender p.chain.chain_id in
    on_claimed p env replies actor (claim_next_queued p.sender p.chain.chain_id actor now w.db) w
