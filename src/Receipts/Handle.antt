-- ===== src/Receipts/Handle.antt =====
-- What the poller does with one receipt, and with one included transaction.
use evm_tx_sender.Prelude.{
  ℕ, ◌+◌, ◌-◌, ◌%◌, ◌^◌, Text, Bool, true, false, Option, none, some, Result, ok, err, List, [],
  ◌∷◌, get_last?, ltb, ◌==◌, if◌then◌else◌,
}
use evm_tx_sender.Domain.{
  Transaction, TxStatus, TxAttempt, AttemptStatus, TxStateLog, receipt_poller_actor, Reason,
  transfer_event_missing, included_in, confirmed_in, reverted_in, confirmed_after, reorged_from,
  reorg_seen,
}
use evm_tx_sender.Repo.{
  Db, call, mark_included, mark_confirmed, mark_reverted, revert_to_submitted, mark_attempt_status,
  get_attempts_by_transaction_id,
}
use evm_tx_sender.Worker.{World, Env, guarded, run, log_entry, log_transition, hand_over}
use evm_tx_sender.Receipts.Logs.{ReceiptPoller, Receipt, to_tx_receipt, lacks_transfer}

-- A marking and its log line; what follows is left out if the marking fails.
unfoldable pub log_marked :
    Option Text → TxStateLog → (World → World) → Db × Option Text → World → World
unfolding log_transition
log_marked link entry rest (db, some e) w = record w { db = db }
log_marked link entry rest (db, none) w = rest (log_transition link entry (record w { db = db }))

unfoldable pub mark : Env → ℕ → (Db → Result Text Db) → TxStateLog → (World → World) → World → World
unfolding log_marked
mark env i write entry rest w =
    log_marked (env.link (i + 1)) entry rest (call (env.link i) w.db (write w.db)) w

abbrev pub nothing_else : World → World
nothing_else w = w

abbrev pub is_hash : Option ℕ → ℕ → Bool
is_hash none h = false
is_hash (some g) h = h == g

-- One attempt: confirmed if it has the hash, replaced if it still counts as broadcast.
abbrev pub settle_one : Option Text → Bool → AttemptStatus → ℕ → World → World
settle_one link true status id w =
    run link (mark_attempt_status id AttemptStatus.attempt_confirmed) w
settle_one link false AttemptStatus.attempt_broadcast id w =
    run link (mark_attempt_status id AttemptStatus.attempt_replaced) w
settle_one link false _ id w = w

-- The loop of `markAttemptConfirmed`; every update has its own answer.
unfoldable pub settle_attempts : (ℕ → Option Text) → Option ℕ → List TxAttempt → World → World
settle_attempts link tx_hash [] w = w
settle_attempts link tx_hash (a ∷ attempts) w =
    settle_attempts link tx_hash attempts
      (settle_one (link a.id) (is_hash tx_hash a.tx_hash) a.status a.id w)

unfoldable pub settle_read :
    (ℕ → Option Text) → Option ℕ → Result Text (List TxAttempt) → World → World
unfolding settle_attempts
settle_read link tx_hash (err e) w = w
settle_read link tx_hash (ok attempts) w = settle_attempts link tx_hash attempts w

-- `markAttemptConfirmed`: the read, and the updates by the attempt's id.
unfoldable pub mark_attempt_confirmed :
    Option Text → (ℕ → Option Text) → ℕ → Option ℕ → World → World
unfolding settle_read
mark_attempt_confirmed read link tx_id tx_hash w =
    settle_read link tx_hash (guarded read (ok (get_attempts_by_transaction_id tx_id w.db))) w

-- The hash of the stored raw transaction, if there is one and it can be read.
abbrev pub decode_raw : ReceiptPoller → Text → Option ℕ
decode_raw rp [] = none
decode_raw rp (byte ∷ raw) = rp.unmarshal_tx (byte ∷ raw)

abbrev pub hand_over_decoded : Option ℕ → World → World
hand_over_decoded none w = w
hand_over_decoded (some tx_hash) w = hand_over tx_hash w

-- `rebroadcastAfterReorg`, on the last attempt; the node's answer is only written to the log.
unfoldable pub resend : ReceiptPoller → Option TxAttempt → World → World
resend rp none w = w
resend rp (some latest) w = hand_over_decoded (decode_raw rp latest.raw_tx) w

unfoldable pub resend_read : ReceiptPoller → Result Text (List TxAttempt) → World → World
unfolding resend
resend_read rp (err e) w = w
resend_read rp (ok attempts) w = resend rp (get_last? attempts) w

unfoldable pub rebroadcast_after_reorg : ReceiptPoller → Option Text → Transaction → World → World
unfolding resend_read
rebroadcast_after_reorg rp link tx w =
    resend_read rp (guarded link (ok (get_attempts_by_transaction_id tx.id w.db))) w

-- The answers for one transaction: `env` for the calls in the order of the source text, and
-- `attempt_link` for the updates of its attempts.
pub record Answers : Type 0 where
  pub env : Env
  pub attempt_link : ℕ → Option Text

module _ (rp : ReceiptPoller) (answers : Answers) (tx : Transaction) (receipt : Receipt) where
  abbrev pub entry : TxStatus → TxStatus → Reason → TxStateLog
  entry from to reason = log_entry tx.id (some from) to (receipt_poller_actor rp.chain_id) reason

  -- The body of the loop over the receipts in `pollSubmitted`.
  unfoldable pub apply_receipt : World → World
  unfolding mark mark_attempt_confirmed to_tx_receipt
  apply_receipt w =
      let block = receipt.block_number % 2 ^ 64 in
      let tx_receipt = to_tx_receipt rp tx receipt in
      if receipt.status == 1
      then if lacks_transfer rp tx.token_contract receipt tx
        then mark answers.env 0 (mark_reverted tx.id tx_receipt (answers.env.clock 0))
            (entry TxStatus.submitted TxStatus.reverted (transfer_event_missing block)) nothing_else
            w
        else if ltb 0 rp.confirmation_blocks
        then mark answers.env 2 (mark_included tx.id tx_receipt (answers.env.clock 2))
            (entry TxStatus.submitted TxStatus.included (included_in block rp.confirmation_blocks))
            nothing_else w
        else mark answers.env 4 (mark_confirmed tx.id tx_receipt (answers.env.clock 4))
            (entry TxStatus.submitted TxStatus.confirmed (confirmed_in block))
            (mark_attempt_confirmed (answers.env.link 6) answers.attempt_link tx.id
              tx.final_tx_hash)
            w
      else mark answers.env 7 (mark_reverted tx.id tx_receipt (answers.env.clock 7))
          (entry TxStatus.submitted TxStatus.reverted (reverted_in block)) nothing_else w

  -- `pollIncluded` on a receipt that was found, for a transaction in the block `old_block`.
  unfoldable pub compare_block : ℕ → ℕ → World → World
  unfolding mark mark_attempt_confirmed to_tx_receipt
  compare_block depth old_block w =
      let block = receipt.block_number % 2 ^ 64 in
      let tx_receipt = to_tx_receipt rp tx receipt in
      if is_hash tx.block_hash receipt.block_hash
      then mark answers.env 3 (mark_confirmed tx.id tx_receipt (answers.env.clock 3))
          (entry TxStatus.included TxStatus.confirmed (confirmed_after depth block))
          (mark_attempt_confirmed (answers.env.link 5) answers.attempt_link tx.id tx.final_tx_hash)
          w
      else mark answers.env 6 (mark_included tx.id tx_receipt (answers.env.clock 6))
          (entry TxStatus.included TxStatus.included (reorged_from old_block block)) nothing_else w

-- `currentBlock - *tx.BlockNumber` on uint64.
unfoldable pub depth : ℕ → ℕ → ℕ
depth current block = (current + 2 ^ 64 - block) % 2 ^ 64

-- The body of the loop over the ready transactions in `pollIncluded`.
unfoldable pub check_included :
    ReceiptPoller → Answers → Transaction → ℕ → ℕ → Option Receipt → World → World
unfolding mark rebroadcast_after_reorg compare_block depth
check_included rp answers tx current block none w =
    mark answers.env 0 (revert_to_submitted tx.id (answers.env.clock 0))
      (log_entry tx.id (some TxStatus.included) TxStatus.submitted
        (receipt_poller_actor rp.chain_id) reorg_seen)
      (rebroadcast_after_reorg rp (answers.env.link 2) tx) w
check_included rp answers tx current block (some receipt) w =
    compare_block rp answers tx receipt (depth current block) block w
