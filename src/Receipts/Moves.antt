-- ===== src/Receipts/Moves.antt =====
-- How a row can move on a receipt or for the lack of one, and which steps leave the rows alone.
use evm_tx_sender.Prelude.{
  ℕ, ◌+◌, ◌<◌, Text, ◌≡◌, ◌≢◌, refl, sym, ap, ◌%◌, ◌^◌, ==_iff, ◌∙◌, Bool, true, false, Option,
  none, some, get_last?, Result, ok, List, [], ◌∷◌, arith,
}
use evm_tx_sender.Domain.{
  Transaction, TxStatus, TxAttempt, AttemptStatus, attempt_broadcast, attempt_confirmed,
  attempt_replaced, attempt_dropped, TxStateLog,
}
use evm_tx_sender.Repo.{
  Db, call, update_tx, set_receipt, set_included, set_confirmed, set_reverted,
  set_back_to_submitted, mark_attempt_status, get_attempts_by_transaction_id,
}
use evm_tx_sender.Repo.Lookup.{KeepsId}
use evm_tx_sender.Worker.{World, Env, run, log_transition}
use evm_tx_sender.Worker.Frame.{log-SameButLog}
use evm_tx_sender.Receipts.{
  ReceiptPoller, Receipt, to_tx_receipt, lacks_transfer, is_hash, log_marked, mark, decode_raw,
  hand_over_decoded, settle_one, settle_attempts, settle_read, mark_attempt_confirmed, resend,
  resend_read, rebroadcast_after_reorg,
}

-- The transactions are as they were and a call failed, or one row has moved by an update and to a
-- status that a predicate allows.
pub data Change (env : Env) (tx_id : ℕ) (Allowed : (Transaction → Transaction) → TxStatus → Type 0)
    (w w' : World) : Type 0 where
  kept :
      (i : ℕ) (e : Text)
      → env.link i ≡ some e
      → w'.db.transactions ≡ w.db.transactions
      → Change env tx_id Allowed w w'
  moved :
      (f : Transaction → Transaction) (s : TxStatus)
      → KeepsId f
      → ((t : Transaction) → (f t).status ≡ s)
      → Allowed f s
      → w'.db.transactions ≡ update_tx tx_id f w.db.transactions
      → Change env tx_id Allowed w w'

-- A worker's step that leaves the transactions alone.
abbrev pub KeepsRows : (World → World) → Type 0
KeepsRows rest = (w : World) → (rest w).db.transactions ≡ w.db.transactions

pub log-KeepsRows :
    (link : Option Text) (entry : TxStateLog) → KeepsRows (log_transition link entry)
log-KeepsRows link entry w = (log-SameButLog link entry w).same_transactions

pub mark-Change :
    (env : Env) (i : ℕ) (write : Db → Result Text Db) (entry : TxStateLog) (rest : World → World)
    (tx_id : ℕ) (Allowed : (Transaction → Transaction) → TxStatus → Type 0)
    (f : Transaction → Transaction) (s : TxStatus) (w : World)
    → KeepsRows rest
    → KeepsId f
    → ((t : Transaction) → (f t).status ≡ s)
    → Allowed f s
    → (db : Db) → write w.db ≡ ok db
    → db.transactions ≡ update_tx tx_id f w.db.transactions
    → Change env tx_id Allowed w (mark env i write entry rest w)
unfolding mark log_marked
mark-Change env i write entry rest tx_id Allowed f s w keeps keeps_id moves allowed db done rows =
    rw done (go (env.link i) refl)
  where
    go :
        (link : Option Text)
        → env.link i ≡ link
        → Change env tx_id Allowed w
            (log_marked (env.link (i + 1)) entry rest (call link w.db (ok db)) w)
    go (some e) l = kept i e l refl
    go none l = moved f s keeps_id moves allowed (
        keeps (log_transition (env.link (i + 1)) entry (record w { db = db }))
        ∙ log-KeepsRows (env.link (i + 1)) entry (record w { db = db })
        ∙ rows)

pub mark_attempt-KeepsRows :
    (link : Option Text) (id : ℕ) (s : AttemptStatus)
    → KeepsRows (run link (mark_attempt_status id s))
unfolding run mark_attempt_status
mark_attempt-KeepsRows none id s w = refl
mark_attempt-KeepsRows (some e) id s w = refl

pub settle_one-KeepsRows :
    (link : Option Text) (same : Bool) (status : AttemptStatus) (id : ℕ)
    → KeepsRows (settle_one link same status id)
settle_one-KeepsRows link true status id w = mark_attempt-KeepsRows link id attempt_confirmed w
settle_one-KeepsRows link false attempt_broadcast id w =
    mark_attempt-KeepsRows link id attempt_replaced w
settle_one-KeepsRows link false attempt_confirmed id w = refl
settle_one-KeepsRows link false attempt_replaced id w = refl
settle_one-KeepsRows link false attempt_dropped id w = refl

pub settle-KeepsRows :
    (link : ℕ → Option Text) (tx_hash : Option ℕ) (attempts : List TxAttempt)
    → KeepsRows (settle_attempts link tx_hash attempts)
unfolding settle_attempts
settle-KeepsRows link tx_hash [] w = refl
settle-KeepsRows link tx_hash (a ∷ attempts) w =
    settle-KeepsRows link tx_hash attempts _
    ∙ settle_one-KeepsRows (link a.id) (is_hash tx_hash a.tx_hash) a.status a.id w

pub confirming-KeepsRows :
    (read : Option Text) (link : ℕ → Option Text) (tx_id : ℕ) (tx_hash : Option ℕ)
    → KeepsRows (mark_attempt_confirmed read link tx_id tx_hash)
unfolding mark_attempt_confirmed settle_read
confirming-KeepsRows (some e) link tx_id tx_hash w = refl
confirming-KeepsRows none link tx_id tx_hash w =
    settle-KeepsRows link tx_hash (get_attempts_by_transaction_id tx_id w.db) w

pub handing_over-KeepsRows :
    (decoded : Option ℕ) (w : World)
    → (hand_over_decoded decoded w).db.transactions ≡ w.db.transactions
handing_over-KeepsRows none w = refl
handing_over-KeepsRows (some tx_hash) w = refl

pub resend-KeepsRows :
    (rp : ReceiptPoller) (latest : Option TxAttempt) → KeepsRows (resend rp latest)
unfolding resend
resend-KeepsRows rp none w = refl
resend-KeepsRows rp (some latest) w = handing_over-KeepsRows (decode_raw rp latest.raw_tx) w

pub resending-KeepsRows :
    (rp : ReceiptPoller) (link : Option Text) (tx : Transaction)
    → KeepsRows (rebroadcast_after_reorg rp link tx)
unfolding rebroadcast_after_reorg resend_read
resending-KeepsRows rp (some e) tx w = refl
resending-KeepsRows rp none tx w =
    resend-KeepsRows rp (get_last? (get_attempts_by_transaction_id tx.id w.db)) w

-- An update that writes what a receipt says, and one that takes back what a receipt wrote. Both
-- keep the nonce.
abbrev pub Fills : Receipt → (Transaction → Transaction) → Type 0
Fills receipt f =
    (t : Transaction)
    → ((f t).block_number ≡ some (receipt.block_number % 2 ^ 64))
      × ((f t).block_hash ≡ some receipt.block_hash)
      × ((f t).gas_used ≡ some receipt.gas_used)
      × ((f t).effective_gas_price ≡ some receipt.effective_gas_price)
      × ((f t).nonce ≡ t.nonce)

abbrev pub Clears : (Transaction → Transaction) → Type 0
Clears f =
    (t : Transaction)
    → ((f t).block_number ≡ none)
      × ((f t).block_hash ≡ none)
      × ((f t).gas_used ≡ none)
      × ((f t).effective_gas_price ≡ none)
      × ((f t).receipt_status ≡ none)
      × ((f t).receipt_data ≡ [])
      × ((f t).nonce ≡ t.nonce)
      × ((f t).final_tx_hash ≡ t.final_tx_hash)

-- Where `pollSubmitted` may move a transaction on its receipt.
pub data AfterReceipt (rp : ReceiptPoller) (tx : Transaction) (receipt : Receipt)
    (f : Transaction → Transaction) : TxStatus → Type 0 where
  included_first :
      receipt.status ≡ 1
      → lacks_transfer rp tx.token_contract receipt tx ≡ false
      → 0 < rp.confirmation_blocks
      → Fills receipt f
      → AfterReceipt rp tx receipt f TxStatus.included
  confirmed_at_once :
      receipt.status ≡ 1
      → lacks_transfer rp tx.token_contract receipt tx ≡ false
      → rp.confirmation_blocks ≡ 0
      → Fills receipt f
      → AfterReceipt rp tx receipt f TxStatus.confirmed
  reverted_on_chain :
      receipt.status ≢ 1 → Fills receipt f → AfterReceipt rp tx receipt f TxStatus.reverted
  transfer_missing :
      lacks_transfer rp tx.token_contract receipt tx ≡ true
      → Fills receipt f
      → AfterReceipt rp tx receipt f TxStatus.reverted

-- Where `pollIncluded` may move a transaction, on what the node has of its receipt.
pub data AfterDepth (tx : Transaction)
    : Option Receipt → (Transaction → Transaction) → TxStatus → Type 0 where
  gone_from_chain :
      (f : Transaction → Transaction) → Clears f → AfterDepth tx none f TxStatus.submitted
  same_block :
      (receipt : Receipt) (f : Transaction → Transaction)
      → tx.block_hash ≡ some receipt.block_hash
      → Fills receipt f
      → AfterDepth tx (some receipt) f TxStatus.confirmed
  other_block :
      (receipt : Receipt) (f : Transaction → Transaction)
      → tx.block_hash ≢ some receipt.block_hash
      → Fills receipt f
      → AfterDepth tx (some receipt) f TxStatus.included

pub set_included-Fills :
    (rp : ReceiptPoller) (tx : Transaction) (receipt : Receipt) (now : ℕ)
    → Fills receipt (set_included (to_tx_receipt rp tx receipt) now)
unfolding set_included set_receipt to_tx_receipt
set_included-Fills rp tx receipt now t = (refl, refl, refl, refl, refl)

pub set_confirmed-Fills :
    (rp : ReceiptPoller) (tx : Transaction) (receipt : Receipt) (now : ℕ)
    → Fills receipt (set_confirmed (to_tx_receipt rp tx receipt) now)
unfolding set_confirmed set_receipt to_tx_receipt
set_confirmed-Fills rp tx receipt now t = (refl, refl, refl, refl, refl)

pub set_reverted-Fills :
    (rp : ReceiptPoller) (tx : Transaction) (receipt : Receipt) (now : ℕ)
    → Fills receipt (set_reverted (to_tx_receipt rp tx receipt) now)
unfolding set_reverted set_receipt to_tx_receipt
set_reverted-Fills rp tx receipt now t = (refl, refl, refl, refl, refl)

pub set_back_to_submitted-Clears : (now : ℕ) → Clears (set_back_to_submitted now)
unfolding set_back_to_submitted
set_back_to_submitted-Clears now t = (refl, refl, refl, refl, refl, refl, refl, refl)

pub hash_same : (o : Option ℕ) (h : ℕ) → is_hash o h ≡ true → o ≡ some h
hash_same none h e = cc
hash_same (some g) h e = ap some (sym ((==_iff h g).0 e))

pub hash_other : (o : Option ℕ) (h : ℕ) → is_hash o h ≡ false → o ≢ some h
hash_other none h e k = cc
hash_other (some g) h e k = let same : g ≡ h = cc in absurd (ground arith)
