-- ===== src/Receipts/Waiting.antt =====
-- `pollIncluded` waits for the confirmation depth.
use evm_tx_sender.Prelude.{
  ℕ, ◌≡◌, ◌⊎◌, inl, inr, refl, sym, Text, ap, ◌∙◌, ◌+◌, ◌^◌, ◌≤◌, ◌<◌, ltb, true, Option, none,
  some, Result, ok, err, List, [], ◌∷◌, In, ◌==◌, ==_iff, Bool-cases, arith,
}
use evm_tx_sender.Domain.{Transaction, TxStatus}
use evm_tx_sender.Repo.{find_tx}
use evm_tx_sender.Repo.Lookup.{find-update_tx, find-update_tx_ne}
use evm_tx_sender.Worker.{World, Env}
use evm_tx_sender.Receipts.{
  ReceiptPoller, Receipt, PollAnswers, Pass, goes_on, returns, panics, depth, is_ready, ready_txs,
  ready_hashes, receipt_for, check_ready, check_included, included_page, on_receipts, or_zero,
}
use evm_tx_sender.Receipts.Moves.{Change, kept, moved}
use evm_tx_sender.Receipts.Changes.{check_included-Change}

-- The row with an id stands as it did, or is the row of a transaction that a test passes.
abbrev pub StandsOr : Type 0 → ℕ → TxStatus → World → Type 0
StandsOr Excuse id status w =
    (row : Transaction) × (find_tx id w.db.transactions ≡ some row)
    × ((row.status ≡ status) ⊎ Excuse)

Change-StandsOr :
    {env : Env} (Excuse : Type 0) (tx_id id : ℕ) (status : TxStatus)
    (Allowed : (Transaction → Transaction) → TxStatus → Type 0) (w w' : World)
    → Change env tx_id Allowed w w'
    → (tx_id ≡ id → Excuse)
    → StandsOr Excuse id status w
    → StandsOr Excuse id status w'
Change-StandsOr Excuse tx_id id status Allowed w w' (kept i e l rows) excuse (row, there, h) =
    (row, ap (find_tx id) rows ∙ there, h)
Change-StandsOr Excuse tx_id id status Allowed w w' (moved f s keeps moves allowed rows) excuse
      (row, there, h) =
    elim (Bool-cases (tx_id == id)) [
      | inl same ↦ mine ((==_iff tx_id id).0 same)
      | inr other ↦ (
        row,
        ap (find_tx id) rows
            ∙ find-update_tx_ne tx_id f keeps id w.db.transactions (λ e. ground arith)
            ∙ there,
        h,
      )
    ]
  where
    mine : tx_id ≡ id → StandsOr Excuse id status w'
    mine e = (
      f row,
      ap (find_tx id) rows ∙ rw e (find-update_tx id f keeps w.db.transactions row there),
      inr (excuse e),
    )

-- A transaction of a page with an id that is in a block, and the node is as many blocks past that
-- block as the configuration asks for, or it is behind the block.
pub record ReadyTx (rp : ReceiptPoller) (current : ℕ) (txs : List Transaction) (id : ℕ)
    : Type 0 where
  pub tx : Transaction
  pub on_page : In tx txs
  pub same_id : tx.id ≡ id
  pub block : ℕ
  pub in_block : tx.block_number ≡ some block
  pub deep : (block + rp.confirmation_blocks ≤ current) ⊎ (current < block)

-- What the test lets through, for a node whose block number is a uint64.
ready_is_deep :
    (rp : ReceiptPoller) (current : ℕ) (o : Option ℕ)
    → current < 2 ^ 64
    → is_ready rp current o ≡ true
    → (block : ℕ) × (o ≡ some block)
      × ((block + rp.confirmation_blocks ≤ current) ⊎ (current < block))
unfolding depth
ready_is_deep rp current none fits ready = cc
ready_is_deep rp current (some block) fits ready = elim (Bool-cases (ltb current block)) [
  | inl e ↦ (block, refl, inr (ground arith))
  | inr e ↦ (block, refl, inl (ground arith))
]

In-ready :
    (rp : ReceiptPoller) (current : ℕ) (tx : Transaction) (txs : List Transaction)
    → In tx (ready_txs rp current txs)
    → In tx txs × (is_ready rp current tx.block_number ≡ true)
unfolding ready_txs
In-ready rp current tx [] i = absurd i
In-ready rp current tx (t ∷ txs) i = elim (Bool-cases (is_ready rp current t.block_number)) [
  | inl e ↦ here (rw e at i) e (In-ready rp current tx txs)
  | inr e ↦ let (there, ready) = In-ready rp current tx txs (rw e at i) in (inr there, ready)
]
  where
    here :
        (t ≡ tx) ⊎ In tx (ready_txs rp current txs)
        → is_ready rp current t.block_number ≡ true
        → (In tx (ready_txs rp current txs)
            → In tx txs × (is_ready rp current tx.block_number ≡ true))
        → In tx (t ∷ txs) × (is_ready rp current tx.block_number ≡ true)
    here (inl same) e rest = (inl same, ap (λ u. is_ready rp current u.block_number) (sym same) ∙ e)
    here (inr i) e rest = let (there, ready) = rest i in (inr there, ready)

-- The page ends without a panic, in a state of which a predicate holds.
abbrev pub Leaves : (World → Type 0) → Pass → Type 0
Leaves P (goes_on w) = P w
Leaves P (returns w) = P w
Leaves P panics = ⊥

module _ (rp : ReceiptPoller) (all : PollAnswers) (current id : ℕ) (status : TxStatus) where
  check_ready-StandsOr :
      (Excuse : Type 0) (n : ℕ) (receipts : List (ℕ × Receipt)) (txs : List Transaction) (w : World)
      → ((tx : Transaction) → In tx txs → tx.id ≡ id → Excuse)
      → StandsOr Excuse id status w
      → Leaves (StandsOr Excuse id status) (check_ready rp (all.answers n) current txs receipts w)
  unfolding check_ready
  check_ready-StandsOr Excuse n receipts [] w excuse h = h
  check_ready-StandsOr Excuse n receipts (tx ∷ txs) w excuse h =
      check_ready-StandsOr Excuse n receipts txs
        (check_included rp (all.answers n tx.id) tx current (or_zero tx.block_number)
          (receipt_for (or_zero tx.final_tx_hash) receipts) w)
        (λ t i. excuse t (inr i))
        (Change-StandsOr Excuse tx.id id status _ w _
          (check_included-Change rp (all.answers n tx.id) tx w current (or_zero tx.block_number)
            (receipt_for (or_zero tx.final_tx_hash) receipts))
          (excuse tx (inl refl)) h)

  -- One page of `pollIncluded`, on a block number of 64 bits from the node, does not panic, and moves
  -- a row to another status only if the page has a transaction of its id in a block from which the
  -- node is at least as many blocks away as the configuration asks for, or that the node has not yet
  -- reached: no other row is confirmed, sent back to submitted, or lost.
  pub included_page_waits :
      current < 2 ^ 64
      → (n : ℕ) (txs : List Transaction) (w : World) (row : Transaction)
      → find_tx id w.db.transactions ≡ some row
      → row.status ≡ status
      → Leaves
          (StandsOr (ReadyTx rp current txs id) id status)
          (included_page rp all current n txs w)
  unfolding included_page
  included_page_waits fits n txs w row there e = go (ready_txs rp current txs) (λ tx i same.
      let (on_page, ready) = In-ready rp current tx txs i in
      let (block, in_block, deep) = ready_is_deep rp current tx.block_number fits ready in
      record {
        tx = tx;
        on_page = on_page;
        same_id = same;
        block = block;
        in_block = in_block;
        deep = deep;
      })
    where
      Excuse : Type 0
      Excuse = ReadyTx rp current txs id

      answer :
          (t : Transaction) (ts : List Transaction) (r : Result Text (List (ℕ × Receipt)))
          → ((tx : Transaction) → In tx (t ∷ ts) → tx.id ≡ id → Excuse)
          → Leaves
              (StandsOr Excuse id status)
              (on_receipts (check_ready rp (all.answers n) current (t ∷ ts)) r w)
      answer t ts (err x) excuse = (row, there, inl e)
      answer t ts (ok receipts) excuse =
          check_ready-StandsOr Excuse n receipts (t ∷ ts) w excuse (row, there, inl e)

      go :
          (ready : List Transaction)
          → ((tx : Transaction) → In tx ready → tx.id ≡ id → Excuse)
          → Leaves (StandsOr Excuse id status) (elim ready [
            | [] ↦ goes_on w
            | t ∷ ts ↦
                on_receipts
                  (check_ready rp (all.answers n) current (t ∷ ts))
                  (all.receipts n (ready_hashes (t ∷ ts)))
                  w
          ])
      go [] excuse = (row, there, inl e)
      go (t ∷ ts) excuse = answer t ts (all.receipts n (ready_hashes (t ∷ ts))) excuse
