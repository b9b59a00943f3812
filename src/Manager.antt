-- ===== src/Manager.antt =====
-- `InitNonces` of internal/pipeline/manager.go, which runs before the pipelines start.
pub mod Start
pub mod Launch
pub mod Wake
pub mod Pairs
use evm_tx_sender.Prelude.{
  ℕ, Text, Bool, Option, none, some, Result, ok, err, List, [], ◌∷◌, codes, ◌++◌, ltb,
  if◌then◌else◌,
}
use evm_tx_sender.Domain.{NonceCursor}
use evm_tx_sender.Repo.{
  Db, call, get_nonce_cursor, init_nonce_cursor, set_nonce_cursor, reset_pending_to_queued,
}
use evm_tx_sender.Worker.{guarded}

-- The answers for one pair: the pending nonce that the node gives, and the errors of the two
-- database calls.
pub record PairAnswers : Type 0 where
  pub pending_nonce_at : Result Text ℕ
  pub read_link : Option Text
  pub write_link : Option Text

-- A pair of a sender and a chain. The order is that in which Go walks the map of the clients.
pub record Pair : Type 0 where
  pub sender : ℕ
  pub chain_id : ℕ
  pub answers : PairAnswers

abbrev pub is_ahead : Option NonceCursor → ℕ → Bool
is_ahead none pending = Bool.false
is_ahead (some c) pending = ltb pending c.next_nonce

-- `startNonce`: the pending nonce, and the pending nonce again if the cursor is ahead.
abbrev pub start_nonce : Option NonceCursor → ℕ → ℕ
start_nonce cursor pending = if is_ahead cursor pending then pending else pending

-- The write: a pair without a cursor gets one, another cursor is set.
abbrev pub write_cursor : Option NonceCursor → ℕ → ℕ → ℕ → Db → Result Text Db
write_cursor none sender chain_id nonce db = init_nonce_cursor sender chain_id nonce db
write_cursor (some c) sender chain_id nonce db = set_nonce_cursor sender chain_id nonce db

abbrev pub on_cursor : Pair → ℕ → Result Text (Option NonceCursor) → Db → Db × Option Text
on_cursor pair pending (err e) db = (db, some e)
on_cursor pair pending (ok cursor) db =
    call pair.answers.write_link db
      (write_cursor cursor pair.sender pair.chain_id (start_nonce cursor pending) db)

abbrev pub on_pending : Pair → Result Text ℕ → Db → Db × Option Text
on_pending pair (err e) db = (db, some e)
on_pending pair (ok pending) db =
    on_cursor pair pending
      (guarded pair.answers.read_link (ok (get_nonce_cursor pair.sender pair.chain_id db))) db

-- `initNonceForSender`: the tables behind it, and its error.
unfoldable pub init_nonce_for_sender : Pair → Db → Db × Option Text
init_nonce_for_sender pair db = on_pending pair pair.answers.pending_nonce_at db

-- The loops over the senders and the clients, up to the first error.
abbrev pub or_stop : Db × Option Text → (Db → Db × Option Text) → Db × Option Text
or_stop (db, some e) next = (db, some e)
or_stop (db, none) next = next db

unfoldable pub init_pairs : List Pair → Db → Db × Option Text
unfolding init_nonce_for_sender
init_pairs [] db = (db, none)
init_pairs (pair ∷ pairs) db = or_stop (init_nonce_for_sender pair db) (init_pairs pairs)

-- `InitNonces`, on the error of `ResetPendingToQueued`.
unfoldable pub init_nonces : Option Text → ℕ → List Pair → Db → Db × Option Text
unfolding init_pairs
init_nonces (some e) now pairs db = (db, some e)
init_nonces none now pairs db = init_pairs pairs (reset_pending_to_queued now db).1
