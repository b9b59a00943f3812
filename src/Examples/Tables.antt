-- ===== src/Examples/Tables.antt =====
-- Nonces and the queue.
use evm_tx_sender.Prelude.{refl, none, some, [], ◌∷◌, arith}
use evm_tx_sender.Domain.{TxStatus, api_actor}
use evm_tx_sender.Repo.{
  Db, find_tx, as_stored, create_transaction, assign_nonce_and_mark_pending, set_nonce, update_tx,
  init_nonce_cursor, claim_next_queued, get_nonce_cursor,
}
use evm_tx_sender.Repo.Nonces.Invariant.{NonceInv}
use evm_tx_sender.Repo.Nonces.Assign.{Assigned, assign_nonce_unique}
use evm_tx_sender.Repo.Nonces.History.{
  Write, nothing, followed, create, init_cursor, assign, empty_db, Writes-NonceInv,
}
use evm_tx_sender.Repo.Queue.{ClaimOutcome, claim_takes_oldest}
use evm_tx_sender.Examples.{payment, tables}

-- A row of any status without a nonce.
pub tables_have_inv : (status : TxStatus) → NonceInv (tables status none)
unfolding get_nonce_cursor
tables_have_inv status = record {
  ids_unique = λ id. ground arith;
  nonces_unique = λ s c n. ground arith;
  nonces_below = λ s c n h. ground arith;
}

-- The tables behind an assignment of the nonce 3.
abbrev assigned : Db
assigned = record (tables TxStatus.pending none) {
  transactions = record (payment 1 TxStatus.pending (some 3)) { updated_at = 5 } ∷ [];
  nonce_cursors = record { sender = 9; chain_id = 1; next_nonce = 4 } ∷ [];
}

assign_nonce_unique_example :
    Assigned 1 5 (tables TxStatus.pending none) (payment 1 TxStatus.pending none) (3, assigned)
unfolding find_tx assign_nonce_and_mark_pending set_nonce update_tx
assign_nonce_unique_example =
    assign_nonce_unique 1 5 (tables TxStatus.pending none) (payment 1 TxStatus.pending none)
      (3, assigned) (tables_have_inv TxStatus.pending) refl refl

abbrev created : Db
created = record empty_db {
  transactions = as_stored (λ s. s) (payment 1 TxStatus.queued none) ∷ [];
}

abbrev with_cursor : Db
with_cursor = record created {
  nonce_cursors = record { sender = 9; chain_id = 1; next_nonce = 3 } ∷ [];
}

abbrev with_nonce : Db
with_nonce = record with_cursor {
  transactions =
      record (as_stored (λ s. s) (payment 1 TxStatus.queued none)) {
        nonce = some 3;
        updated_at = 5;
      }
      ∷ [];
  nonce_cursors = record { sender = 9; chain_id = 1; next_nonce = 4 } ∷ [];
}

create_first : Write empty_db created
unfolding create_transaction as_stored
create_first = create (λ s. s) (payment 1 TxStatus.queued none) refl

init_first : Write created with_cursor
unfolding init_nonce_cursor
init_first = init_cursor 9 1 3 refl

assign_first : Write with_cursor with_nonce
unfolding find_tx assign_nonce_and_mark_pending set_nonce update_tx as_stored
assign_first = assign 1 5 3 (as_stored (λ s. s) (payment 1 TxStatus.queued none)) refl refl

Writes-NonceInv_example : NonceInv with_nonce
unfolding create_first init_first assign_first
Writes-NonceInv_example =
    Writes-NonceInv (followed (followed (followed nothing create_first) init_first) assign_first)
      (((tt, tt), λ m h. ground arith), tt)

claim_takes_oldest_example :
    ClaimOutcome 9 1 5 api_actor
      (tables TxStatus.queued none)
      (claim_next_queued 9 1 api_actor 5 (tables TxStatus.queued none))
claim_takes_oldest_example =
    claim_takes_oldest 9 1 5 api_actor (tables TxStatus.queued none) (λ id. ground arith)
