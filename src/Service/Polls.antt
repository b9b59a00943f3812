-- ===== src/Service/Polls.antt =====
-- The receipt poller makes writes of repo.go only.
use evm_tx_sender.Prelude.{
  ℕ, ◌+◌, ◌≡◌, refl, Text, Bool, true, false, Option, none, some, Result, ok, err, List, [], ◌∷◌,
  get_last?, ltb, ◌==◌, ◌%◌, ◌^◌, Bool-cases, inl, inr,
}
use evm_tx_sender.Domain.{
  Transaction, TxAttempt, AttemptStatus, attempt_broadcast, attempt_confirmed, attempt_replaced,
  attempt_dropped, TxStateLog, TxReceipt, TxStatus, Reason, receipt_poller_actor,
  transfer_event_missing, included_in, confirmed_in, reverted_in, confirmed_after, reorged_from,
  reorg_seen,
}
use evm_tx_sender.Repo.{
  Db, call, mark_included, mark_confirmed, mark_reverted, revert_to_submitted, mark_attempt_status,
  get_attempts_by_transaction_id,
}
use evm_tx_sender.Repo.Nonces.History.{include, confirm, revert, put_back, attempt_status}
use evm_tx_sender.Worker.{World, Env, log_entry, log_transition}
use evm_tx_sender.Receipts.{
  ReceiptPoller, Receipt, Answers, log_marked, mark, nothing_else, settle_one, settle_attempts,
  settle_read, mark_attempt_confirmed, decode_raw, hand_over_decoded, resend, resend_read,
  rebroadcast_after_reorg, apply_receipt, entry, to_tx_receipt, lacks_transfer, is_hash,
  compare_block, depth, check_included,
}
use evm_tx_sender.Service.Calls.{
  SafeWrite, no_writes, SafeWrites-trans, one_write, run-Writes, log-Writes,
}
use evm_tx_sender.Service.Workers.{Since}

log_marked-Writes :
    (l link : Option Text) (entry : TxStateLog) (rest : World → World) (w : World)
    (r : Result Text Db)
    → ((db' : Db) → r ≡ ok db' → SafeWrite w.db db')
    → ((w' : World) → Since w' (rest w'))
    → Since w (log_marked l entry rest (call link w.db r) w)
unfolding log_marked
log_marked-Writes l (some e) entry rest w r write more = no_writes
log_marked-Writes l none entry rest w (err e) write more = no_writes
log_marked-Writes l none entry rest w (ok db) write more =
    SafeWrites-trans (one_write (write db refl)) (
      SafeWrites-trans (log-Writes l entry (record w { db = db }))
        (more (log_transition l entry (record w { db = db }))))

mark-Writes :
    (env : Env) (i : ℕ) (write : Db → Result Text Db) (entry : TxStateLog) (rest : World → World)
    (w : World)
    → ((db db' : Db) → write db ≡ ok db' → SafeWrite db db')
    → ((w' : World) → Since w' (rest w'))
    → Since w (mark env i write entry rest w)
unfolding mark
mark-Writes env i write entry rest w writes more =
    log_marked-Writes (env.link (i + 1)) (env.link i) entry rest w (write w.db) (writes w.db) more

settle_one-Writes :
    (link : Option Text) (same : Bool) (status : AttemptStatus) (id : ℕ) (w : World)
    → Since w (settle_one link same status id w)
settle_one-Writes link true status id w =
    run-Writes link (mark_attempt_status id attempt_confirmed) w
      (λ db' e. (attempt_status id attempt_confirmed e, tt))
settle_one-Writes link false attempt_broadcast id w =
    run-Writes link (mark_attempt_status id attempt_replaced) w
      (λ db' e. (attempt_status id attempt_replaced e, tt))
settle_one-Writes link false attempt_confirmed id w = no_writes
settle_one-Writes link false attempt_replaced id w = no_writes
settle_one-Writes link false attempt_dropped id w = no_writes

settle_attempts-Writes :
    (link : ℕ → Option Text) (tx_hash : Option ℕ) (attempts : List TxAttempt) (w : World)
    → Since w (settle_attempts link tx_hash attempts w)
unfolding settle_attempts
settle_attempts-Writes link tx_hash [] w = no_writes
settle_attempts-Writes link tx_hash (a ∷ attempts) w =
    SafeWrites-trans (settle_one-Writes (link a.id) (is_hash tx_hash a.tx_hash) a.status a.id w) (
      settle_attempts-Writes link tx_hash attempts
        (settle_one (link a.id) (is_hash tx_hash a.tx_hash) a.status a.id w))

mark_attempt_confirmed-Writes :
    (read : Option Text) (link : ℕ → Option Text) (tx_id : ℕ) (tx_hash : Option ℕ) (w : World)
    → Since w (mark_attempt_confirmed read link tx_id tx_hash w)
unfolding mark_attempt_confirmed settle_read
mark_attempt_confirmed-Writes (some e) link tx_id tx_hash w = no_writes
mark_attempt_confirmed-Writes none link tx_id tx_hash w =
    settle_attempts-Writes link tx_hash (get_attempts_by_transaction_id tx_id w.db) w

-- A transaction sent again after a reorganisation is not written down.
rebroadcast-Writes :
    (rp : ReceiptPoller) (link : Option Text) (tx : Transaction) (w : World)
    → Since w (rebroadcast_after_reorg rp link tx w)
unfolding rebroadcast_after_reorg resend_read resend
rebroadcast-Writes rp (some e) tx w = no_writes
rebroadcast-Writes rp none tx w = last (get_last? (get_attempts_by_transaction_id tx.id w.db))
  where
    decoded : (o : Option ℕ) → Since w (hand_over_decoded o w)
    decoded none = no_writes
    decoded (some h) = no_writes

    last : (o : Option TxAttempt) → Since w (resend rp o w)
    last none = no_writes
    last (some a) = decoded (decode_raw rp a.raw_tx)

module _ (env : Env) (i id : ℕ) (r : TxReceipt) (entry : TxStateLog) (w : World) where
  reverts : Since w (mark env i (mark_reverted id r (env.clock i)) entry nothing_else w)
  reverts =
      mark-Writes env i (mark_reverted id r (env.clock i)) entry nothing_else w
        (λ db db' e. (revert id r (env.clock i) e, tt)) (λ w'. no_writes)

  includes : Since w (mark env i (mark_included id r (env.clock i)) entry nothing_else w)
  includes =
      mark-Writes env i (mark_included id r (env.clock i)) entry nothing_else w
        (λ db db' e. (include id r (env.clock i) e, tt)) (λ w'. no_writes)

  confirms :
      (read : Option Text) (link : ℕ → Option Text) (tx_hash : Option ℕ)
      → Since w (
          mark env i
            (mark_confirmed id r (env.clock i))
            entry
            (mark_attempt_confirmed read link id tx_hash)
            w)
  confirms read link tx_hash =
      mark-Writes env i (mark_confirmed id r (env.clock i)) entry
        (mark_attempt_confirmed read link id tx_hash) w
        (λ db db' e. (confirm id r (env.clock i) e, tt))
        (λ w'. mark_attempt_confirmed-Writes read link id tx_hash w')

module _ (rp : ReceiptPoller) (answers : Answers) (tx : Transaction) (receipt : Receipt)
    (w : World) where
  abbrev block : ℕ
  block = receipt.block_number % 2 ^ 64

  abbrev row : TxReceipt
  row = to_tx_receipt rp tx receipt

  abbrev logged : TxStatus → TxStatus → Reason → TxStateLog
  logged from to reason = entry rp answers tx receipt from to reason

  pub apply_receipt-Writes : Since w (apply_receipt rp answers tx receipt w)
  unfolding apply_receipt
  apply_receipt-Writes = elim (Bool-cases (receipt.status == 1)) [
    | inl succeeded ↦ elim (Bool-cases (lacks_transfer rp tx.token_contract receipt tx)) [
      | inl e ↦
          rw (succeeded, e)
            (reverts answers.env 0 tx.id row
              (logged TxStatus.submitted TxStatus.reverted (transfer_event_missing block)) w)
      | inr e ↦ elim (Bool-cases (ltb 0 rp.confirmation_blocks)) [
        | inl k ↦
            rw (succeeded, e, k)
              (includes answers.env 2 tx.id row
                (logged TxStatus.submitted TxStatus.included
                  (included_in block rp.confirmation_blocks))
                w)
        | inr k ↦
            rw (succeeded, e, k)
              (confirms answers.env 4 tx.id row
                (logged TxStatus.submitted TxStatus.confirmed (confirmed_in block)) w
                (answers.env.link 6) answers.attempt_link tx.final_tx_hash)
      ]
    ]
    | inr failed ↦ rw failed (
        reverts answers.env 7 tx.id row
          (logged TxStatus.submitted TxStatus.reverted (reverted_in block)) w)
  ]

  compare_block-Writes : (d old : ℕ) → Since w (compare_block rp answers tx receipt d old w)
  unfolding compare_block
  compare_block-Writes d old = elim (Bool-cases (is_hash tx.block_hash receipt.block_hash)) [
    | inl e ↦ rw e (
        confirms answers.env 3 tx.id row
          (logged TxStatus.included TxStatus.confirmed (confirmed_after d block)) w
          (answers.env.link 5) answers.attempt_link tx.final_tx_hash)
    | inr e ↦ rw e (
        includes answers.env 6 tx.id row
          (logged TxStatus.included TxStatus.included (reorged_from old block)) w)
  ]

pub check_included-Writes :
    (rp : ReceiptPoller) (answers : Answers) (tx : Transaction) (current old : ℕ)
    (o : Option Receipt) (w : World)
    → Since w (check_included rp answers tx current old o w)
unfolding check_included
check_included-Writes rp answers tx current old none w =
    mark-Writes answers.env 0 (revert_to_submitted tx.id (answers.env.clock 0))
      (log_entry tx.id (some TxStatus.included) TxStatus.submitted
        (receipt_poller_actor rp.chain_id) reorg_seen)
      (rebroadcast_after_reorg rp (answers.env.link 2) tx) w
      (λ db db' k. (put_back tx.id (answers.env.clock 0) k, tt))
      (λ w'. rebroadcast-Writes rp (answers.env.link 2) tx w')
check_included-Writes rp answers tx current old (some receipt) w =
    compare_block-Writes rp answers tx receipt w (depth current old) old
