-- ===== src/Receipts/Loops.antt =====
-- The two loops of `poll`, page by page.
use evm_tx_sender.Prelude.{
  ℕ, zero, suc, Text, Bool, true, false, Option, none, some, Result, ok, err, List, [], ◌∷◌, length,
  get_last?, ltb, ◌==◌, if◌then◌else◌,
}
use evm_tx_sender.Domain.{Transaction}
use evm_tx_sender.Repo.{Db, get_submitted_transactions, get_included_transactions}
use evm_tx_sender.Worker.{World, guarded}
use evm_tx_sender.Receipts.Logs.{ReceiptPoller, Receipt}
use evm_tx_sender.Receipts.Handle.{Answers, apply_receipt, depth, check_included}

-- How the work on one page ends.
pub data Pass : Type 0 where
  goes_on returns : World → Pass
  panics : Pass

-- How the loop over the pages ends.
pub data Poll : Type 0 where
  finished : World → Poll
  panicked : Poll
  out_of_fuel : World → Poll

-- The answers of one loop: the error of reading page n, the receipts that the node gives for a
-- list of hashes on page n, in the order in which Go walks the map, and the answers for the
-- transaction with an id on page n.
pub record PollAnswers : Type 0 where
  pub list_link : ℕ → Option Text
  pub receipts : ℕ → List ℕ → Result Text (List (ℕ × Receipt))
  pub answers : ℕ → ℕ → Answers

-- Behind a page: a short page was the last one.
abbrev pub after_pass : Bool → Pass → (World → Poll) → Poll
after_pass short panics next = panicked
after_pass short (returns w) next = finished w
after_pass true (goes_on w) next = finished w
after_pass false (goes_on w) next = next w

-- The rest of a turn, on the last row of the page, which an empty page does not have.
abbrev pub on_last : Option Transaction → Bool → World → (World → Pass) → (ℕ → World → Poll) → Poll
on_last none short w body next = finished w
on_last (some last) short w body next = after_pass short (body w) (next last.id)

abbrev pub on_page :
    Result Text (List Transaction)
    → ℕ
    → World
    → (List Transaction → World → Pass)
    → (ℕ → World → Poll)
    → Poll
on_page (err e) chunk w body next = finished w
on_page (ok txs) chunk w body next =
    on_last (get_last? txs) (ltb (length txs) chunk) w (body txs) next

-- The loop that both functions share: `fetch` reads the page behind a cursor.
unfoldable pub pages :
    (Option ℕ → Db → List Transaction)
    → (ℕ → Option Text)
    → (ℕ → List Transaction → World → Pass)
    → ℕ
    → ℕ
    → ℕ
    → Option ℕ
    → World
    → Poll
pages fetch link body chunk zero n cursor w = out_of_fuel w
pages fetch link body chunk (suc fuel) n cursor w =
    on_page (guarded (link n) (ok (fetch cursor w.db))) chunk w (body n)
      (λ last w'. pages fetch link body chunk fuel (suc n) (some last) w')

abbrev pub with_hash : Option ℕ → List ℕ → List ℕ
with_hash none hashes = hashes
with_hash (some h) hashes = h ∷ hashes

-- The hashes that `pollSubmitted` asks for.
unfoldable pub hashes_of : List Transaction → List ℕ
hashes_of [] = []
hashes_of (tx ∷ txs) = with_hash tx.final_tx_hash (hashes_of txs)

abbrev pub has_final_hash : Option ℕ → ℕ → Bool
has_final_hash none h = false
has_final_hash (some g) h = g == h

abbrev pub later_or : Option Transaction → Bool → Transaction → Option Transaction
later_or (some u) here tx = some u
later_or none true tx = some tx
later_or none false tx = none

-- The map `hashToTx`: of two transactions with one hash, the later is found.
unfoldable pub hash_to_tx : ℕ → List Transaction → Option Transaction
hash_to_tx h [] = none
hash_to_tx h (tx ∷ txs) = later_or (hash_to_tx h txs) (has_final_hash tx.final_tx_hash h) tx

-- A nil transaction, whose fields are read.
abbrev pub on_known : Option Transaction → (Transaction → Pass) → Pass
on_known none work = panics
on_known (some tx) work = work tx

-- The loop over the receipts; a hash that was not asked for has no transaction.
unfoldable pub apply_receipts :
    ReceiptPoller → (ℕ → Answers) → List Transaction → List (ℕ × Receipt) → World → Pass
unfolding hash_to_tx apply_receipt
apply_receipts rp answers txs [] w = goes_on w
apply_receipts rp answers txs ((h, receipt) ∷ rest) w =
    on_known (hash_to_tx h txs)
      λ tx. apply_receipts rp answers txs rest (apply_receipt rp (answers tx.id) tx receipt w)

abbrev pub on_receipts :
    (List (ℕ × Receipt) → World → Pass) → Result Text (List (ℕ × Receipt)) → World → Pass
on_receipts body (err e) w = returns w
on_receipts body (ok receipts) w = body receipts w

-- One page of `pollSubmitted`.
unfoldable pub submitted_page : ReceiptPoller → PollAnswers → ℕ → List Transaction → World → Pass
unfolding hashes_of apply_receipts
submitted_page rp all n txs w = elim (hashes_of txs) [
  | [] ↦ goes_on w
  | h ∷ hs ↦ on_receipts (apply_receipts rp (all.answers n) txs) (all.receipts n (h ∷ hs)) w
]

-- Each page is read behind the last id of the page before, so that no more pages are read than
-- there are rows, and one.
unfoldable pub poll_submitted : ReceiptPoller → PollAnswers → World → Poll
unfolding pages submitted_page
poll_submitted rp all w =
    pages (get_submitted_transactions rp.chain_id rp.receipt_chunk_size) all.list_link
      (submitted_page rp all) rp.receipt_chunk_size (suc (length w.db.transactions)) 0 none w

-- A transaction that is deep enough, with its block.
abbrev pub is_ready : ReceiptPoller → ℕ → Option ℕ → Bool
is_ready rp current none = false
is_ready rp current (some block) =
    if ltb (depth current block) rp.confirmation_blocks then false else true

unfoldable pub ready_txs : ReceiptPoller → ℕ → List Transaction → List Transaction
unfolding depth
ready_txs rp current [] = []
ready_txs rp current (tx ∷ txs) =
    if is_ready rp current tx.block_number
    then tx ∷ ready_txs rp current txs
    else ready_txs rp current txs

-- `common.HexToHash`, which reads an empty text as zero.
abbrev pub or_zero : Option ℕ → ℕ
or_zero none = 0
or_zero (some h) = h

unfoldable pub ready_hashes : List Transaction → List ℕ
ready_hashes [] = []
ready_hashes (tx ∷ txs) = or_zero tx.final_tx_hash ∷ ready_hashes txs

unfoldable pub receipt_for : ℕ → List (ℕ × Receipt) → Option Receipt
receipt_for h [] = none
receipt_for h ((g, receipt) ∷ rest) = if g == h then some receipt else receipt_for h rest

unfoldable pub check_ready :
    ReceiptPoller → (ℕ → Answers) → ℕ → List Transaction → List (ℕ × Receipt) → World → Pass
unfolding receipt_for check_included
check_ready rp answers current [] receipts w = goes_on w
check_ready rp answers current (tx ∷ txs) receipts w = check_ready rp answers current txs receipts (
    check_included rp (answers tx.id) tx current (or_zero tx.block_number)
      (receipt_for (or_zero tx.final_tx_hash) receipts) w)

-- One page of `pollIncluded`.
unfoldable pub included_page : ReceiptPoller → PollAnswers → ℕ → ℕ → List Transaction → World → Pass
unfolding ready_txs ready_hashes check_ready
included_page rp all current n txs w = elim (ready_txs rp current txs) [
  | [] ↦ goes_on w
  | t ∷ ts ↦
      on_receipts (check_ready rp (all.answers n) current (t ∷ ts))
        (all.receipts n (ready_hashes (t ∷ ts))) w
]

-- `pollIncluded`, on the result of `BlockNumber`.
unfoldable pub poll_included : ReceiptPoller → PollAnswers → Result Text ℕ → World → Poll
unfolding pages included_page
poll_included rp all (err e) w = finished w
poll_included rp all (ok current) w =
    if rp.confirmation_blocks == 0
    then finished w
    else pages (get_included_transactions rp.chain_id rp.receipt_chunk_size) all.list_link
        (included_page rp all current) rp.receipt_chunk_size (suc (length w.db.transactions)) 0 none
        w
