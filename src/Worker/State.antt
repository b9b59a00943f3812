-- ===== src/Worker/State.antt =====
-- The state that a worker changes, and what its surroundings answer during one pass.
use evm_tx_sender.Prelude.{ℕ, Text, Option, none, some, Result, err, List, [], ◌∷◌, ◌++◌}
use evm_tx_sender.Domain.{TxStatus, TxStateLog, Actor, Reason}
use evm_tx_sender.Repo.{Db, call, log_state_transition}

-- The tables, and the hashes of the transactions handed to a node, in order: one entry for each
-- call of `SendTransaction`, whatever the node answered.
pub record World : Type 0 where
  pub db : Db
  pub sent : List ℕ

-- The answers of one pass: `link i` is the connection error of the i-th database call in the
-- order of the source text, `clock i` the time at that call as a TIMESTAMPTZ keeps it, in whole
-- microseconds, and `node i` the error of the i-th broadcast; `none` is success. `new_id` is the ULID
-- made for an attempt.
pub record Env : Type 0 where
  pub link : ℕ → Option Text
  pub clock : ℕ → ℕ
  pub node : ℕ → Option Text
  pub new_id : ℕ

-- A call whose result the caller reads.
abbrev pub guarded {ℓ} : {A : Type ℓ} → Option Text → Result Text A → Result Text A
guarded none r = r
guarded (some e) r = err e

-- A call of which the caller drops the error.
unfoldable pub run : Option Text → (Db → Result Text Db) → World → World
run link write w = record w { db = (call link w.db (write w.db)).0 }

abbrev pub log_entry : ℕ → Option TxStatus → TxStatus → Actor → Reason → TxStateLog
log_entry tx_id from to actor reason = record {
  transaction_id = tx_id;
  from_status = from;
  to_status = to;
  actor = actor;
  reason = reason;
}

-- `logTransition`: the error of the insert is dropped.
unfoldable pub log_transition : Option Text → TxStateLog → World → World
unfolding run
log_transition link entry w = run link (log_state_transition entry) w

-- `SendTransaction` of a transaction with this hash.
abbrev pub hand_over : ℕ → World → World
hand_over tx_hash w = record w { sent = w.sent ++ tx_hash ∷ [] }
