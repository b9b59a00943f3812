-- ===== src/Service/Loops.antt =====
-- A whole poll makes writes of repo.go only.
use evm_tx_sender.Prelude.{
  ℕ, zero, suc, Text, Bool, true, false, Option, none, some, Result, ok, err, List, [], ◌∷◌, length,
  get_last?, ltb, ◌==◌, Bool-cases, inl, inr,
}
use evm_tx_sender.Domain.{Transaction}
use evm_tx_sender.Repo.{Db, get_submitted_transactions, get_included_transactions}
use evm_tx_sender.Worker.{World, guarded}
use evm_tx_sender.Receipts.{
  ReceiptPoller, Receipt, Answers, PollAnswers, Pass, goes_on, returns, panics, Poll, finished,
  panicked, out_of_fuel, apply_receipt, check_included, after_pass, on_last, on_page, pages,
  hashes_of, hash_to_tx, on_known, apply_receipts, on_receipts, submitted_page, poll_submitted,
  ready_txs, ready_hashes, or_zero, receipt_for, check_ready, included_page, poll_included,
}
use evm_tx_sender.Service.Calls.{no_writes, SafeWrites-trans}
use evm_tx_sender.Service.Workers.{Since}
use evm_tx_sender.Service.Polls.{apply_receipt-Writes, check_included-Writes}

-- What holds of the world behind a page, and behind a loop.
abbrev AfterPass : (World → Type 0) → Pass → Type 0
AfterPass P (goes_on w) = P w
AfterPass P (returns w) = P w
AfterPass P panics = Unit

abbrev pub AfterPoll : (World → Type 0) → Poll → Type 0
AfterPoll P (finished w) = P w
AfterPoll P (out_of_fuel w) = P w
AfterPoll P panicked = Unit

pass_later : (w w' : World) (p : Pass) → Since w w' → AfterPass (Since w') p → AfterPass (Since w) p
pass_later w w' (goes_on w'') first rest = SafeWrites-trans first rest
pass_later w w' (returns w'') first rest = SafeWrites-trans first rest
pass_later w w' panics first rest = tt

poll_later : (w w' : World) (p : Poll) → Since w w' → AfterPoll (Since w') p → AfterPoll (Since w) p
poll_later w w' (finished w'') first rest = SafeWrites-trans first rest
poll_later w w' (out_of_fuel w'') first rest = SafeWrites-trans first rest
poll_later w w' panicked first rest = tt

module _ (rp : ReceiptPoller) (answers : ℕ → Answers) where
  apply_receipts-Writes :
      (txs : List Transaction) (receipts : List (ℕ × Receipt)) (w : World)
      → AfterPass (Since w) (apply_receipts rp answers txs receipts w)
  unfolding apply_receipts
  apply_receipts-Writes txs [] w = no_writes
  apply_receipts-Writes txs ((h, receipt) ∷ rest) w =
      known (hash_to_tx h txs) (λ w'. apply_receipts-Writes txs rest w')
    where
      known :
          (o : Option Transaction)
          → ((w' : World) → AfterPass (Since w') (apply_receipts rp answers txs rest w'))
          → AfterPass (Since w) (
              on_known o λ tx.
                apply_receipts rp answers txs rest (apply_receipt rp (answers tx.id) tx receipt w))
      known none more = tt
      known (some tx) more =
          pass_later w (apply_receipt rp (answers tx.id) tx receipt w)
            (apply_receipts rp answers txs rest (apply_receipt rp (answers tx.id) tx receipt w))
            (apply_receipt-Writes rp (answers tx.id) tx receipt w)
            (more (apply_receipt rp (answers tx.id) tx receipt w))

  check_ready-Writes :
      (current : ℕ) (txs : List Transaction) (receipts : List (ℕ × Receipt)) (w : World)
      → AfterPass (Since w) (check_ready rp answers current txs receipts w)
  unfolding check_ready
  check_ready-Writes current [] receipts w = no_writes
  check_ready-Writes current (tx ∷ txs) receipts w =
      let found = receipt_for (or_zero tx.final_tx_hash) receipts in
      let w' = check_included rp (answers tx.id) tx current (or_zero tx.block_number) found w in
      pass_later w w' (check_ready rp answers current txs receipts w')
        (check_included-Writes rp (answers tx.id) tx current (or_zero tx.block_number) found w)
        (check_ready-Writes current txs receipts w')

on_receipts-Writes :
    (body : List (ℕ × Receipt) → World → Pass) (r : Result Text (List (ℕ × Receipt))) (w : World)
    → ((receipts : List (ℕ × Receipt)) → AfterPass (Since w) (body receipts w))
    → AfterPass (Since w) (on_receipts body r w)
on_receipts-Writes body (err e) w h = no_writes
on_receipts-Writes body (ok receipts) w h = h receipts

module _ (rp : ReceiptPoller) (all : PollAnswers) where
  submitted_page-Writes :
      (n : ℕ) (txs : List Transaction) (w : World)
      → AfterPass (Since w) (submitted_page rp all n txs w)
  unfolding submitted_page
  submitted_page-Writes n txs w = go (hashes_of txs)
    where
      go :
          (hashes : List ℕ)
          → AfterPass (Since w) (elim hashes [
            | [] ↦ goes_on w
            | h ∷ hs ↦
                on_receipts (apply_receipts rp (all.answers n) txs) (all.receipts n (h ∷ hs)) w
          ])
      go [] = no_writes
      go (h ∷ hs) =
          on_receipts-Writes (apply_receipts rp (all.answers n) txs) (all.receipts n (h ∷ hs)) w
            (λ receipts. apply_receipts-Writes rp (all.answers n) txs receipts w)

  included_page-Writes :
      (current n : ℕ) (txs : List Transaction) (w : World)
      → AfterPass (Since w) (included_page rp all current n txs w)
  unfolding included_page
  included_page-Writes current n txs w = go (ready_txs rp current txs)
    where
      go :
          (ready : List Transaction)
          → AfterPass (Since w) (elim ready [
            | [] ↦ goes_on w
            | t ∷ ts ↦
                on_receipts
                  (check_ready rp (all.answers n) current (t ∷ ts))
                  (all.receipts n (ready_hashes (t ∷ ts)))
                  w
          ])
      go [] = no_writes
      go (t ∷ ts) =
          on_receipts-Writes (check_ready rp (all.answers n) current (t ∷ ts))
            (all.receipts n (ready_hashes (t ∷ ts))) w
            (λ receipts. check_ready-Writes rp (all.answers n) current (t ∷ ts) receipts w)

module _ (fetch : Option ℕ → Db → List Transaction) (link : ℕ → Option Text)
    (body : ℕ → List Transaction → World → Pass) (chunk : ℕ)
    (body-Writes : (n : ℕ) (txs : List Transaction) (w : World)
      → AfterPass (Since w) (body n txs w)) where
  after_pass-Writes :
      (short : Bool) (p : Pass) (w : World) (next : World → Poll)
      → AfterPass (Since w) p
      → ((w' : World) → AfterPoll (Since w') (next w'))
      → AfterPoll (Since w) (after_pass short p next)
  after_pass-Writes short panics w next h more = tt
  after_pass-Writes short (returns w') w next h more = h
  after_pass-Writes true (goes_on w') w next h more = h
  after_pass-Writes false (goes_on w') w next h more = poll_later w w' (next w') h (more w')

  pages-Writes :
      (fuel n : ℕ) (cursor : Option ℕ) (w : World)
      → AfterPoll (Since w) (pages fetch link body chunk fuel n cursor w)
  unfolding pages
  pages-Writes zero n cursor w = no_writes
  pages-Writes (suc fuel) n cursor w =
      page (guarded (link n) (ok (fetch cursor w.db)))
        (λ last w'. pages-Writes fuel (suc n) (some last) w')
    where
      next : ℕ → World → Poll
      next last w' = pages fetch link body chunk fuel (suc n) (some last) w'

      last_row :
          (o : Option Transaction) (txs : List Transaction)
          → ((last : ℕ) (w' : World) → AfterPoll (Since w') (next last w'))
          → AfterPoll (Since w) (on_last o (ltb (length txs) chunk) w (body n txs) next)
      last_row none txs more = no_writes
      last_row (some last) txs more =
          after_pass-Writes (ltb (length txs) chunk) (body n txs w) w (next last.id)
            (body-Writes n txs w) (more last.id)

      page :
          (r : Result Text (List Transaction))
          → ((last : ℕ) (w' : World) → AfterPoll (Since w') (next last w'))
          → AfterPoll (Since w) (on_page r chunk w (body n) next)
      page (err e) more = no_writes
      page (ok txs) more = last_row (get_last? txs) txs more

-- A pass over the submitted transactions makes writes of repo.go only.
pub poll_submitted-Writes :
    (rp : ReceiptPoller) (all : PollAnswers) (w : World)
    → AfterPoll (Since w) (poll_submitted rp all w)
unfolding poll_submitted
poll_submitted-Writes rp all w =
    pages-Writes (get_submitted_transactions rp.chain_id rp.receipt_chunk_size) all.list_link
      (submitted_page rp all) rp.receipt_chunk_size (submitted_page-Writes rp all)
      (suc (length w.db.transactions)) 0 none w

-- And so does a pass over the included ones.
pub poll_included-Writes :
    (rp : ReceiptPoller) (all : PollAnswers) (current : Result Text ℕ) (w : World)
    → AfterPoll (Since w) (poll_included rp all current w)
unfolding poll_included
poll_included-Writes rp all (err e) w = no_writes
poll_included-Writes rp all (ok current) w = elim (Bool-cases (rp.confirmation_blocks == 0)) [
  | inl e ↦ rw e no_writes
  | inr e ↦ rw e (
      pages-Writes (get_included_transactions rp.chain_id rp.receipt_chunk_size) all.list_link
        (included_page rp all current) rp.receipt_chunk_size (included_page-Writes rp all current)
        (suc (length w.db.transactions)) 0 none w)
]
