-- ===== src/Receipts/Paging.antt =====
-- The loops over the pages end.
use evm_tx_sender.Prelude.{
  ℕ, zero, suc, ◌≤◌, ◌<◌, Text, ◌≡◌, inl, inr, refl, ap, ◌∙◌, Bool, true, false, Option, none, some,
  Result, ok, err, Ensures, List, [], ◌∷◌, length, get_last?, count_if, ltb, In, All, ◌==◌, ==_refl,
  Bool-cases, arith,
}
use evm_tx_sender.Domain.{Transaction, TxStatus}
use evm_tx_sender.Repo.{page, is_after, get_submitted_transactions, get_included_transactions}
use evm_tx_sender.Repo.Lookup.{count-update_tx_kept}
use evm_tx_sender.Worker.{World, Env, guarded}
use evm_tx_sender.Receipts.{
  ReceiptPoller, Receipt, PollAnswers, Pass, goes_on, returns, panics, Poll, finished, panicked,
  out_of_fuel, after_pass, on_last, on_page, with_hash, has_final_hash, later_or, pages, hashes_of,
  hash_to_tx, apply_receipt, apply_receipts, on_receipts, submitted_page, poll_submitted, ready_txs,
  ready_hashes, receipt_for, check_ready, included_page, poll_included, or_zero,
}
use evm_tx_sender.Receipts.Moves.{Change, kept, moved}
use evm_tx_sender.Receipts.Changes.{apply_receipt-Change, check_included-Change}
use evm_tx_sender.Receipts.Cursors.{cursor_advances}

-- The same ids, each as often.
abbrev pub SameIds : World → World → Type 0
SameIds w w' =
    (p : ℕ → Bool)
    → count_if (λ t. p t.id) w'.db.transactions ≡ count_if (λ t. p t.id) w.db.transactions

Change-SameIds :
    {env : Env} (tx_id : ℕ) (Allowed : (Transaction → Transaction) → TxStatus → Type 0)
    (w w' : World)
    → Change env tx_id Allowed w w'
    → SameIds w w'
Change-SameIds tx_id Allowed w w' (kept i e l rows) p = ap (count_if (λ t. p t.id)) rows
Change-SameIds tx_id Allowed w w' (moved f s keeps moves allowed rows) p =
    ap (count_if (λ t. p t.id)) rows
    ∙ count-update_tx_kept tx_id f (λ t. p t.id) w.db.transactions (λ t. ap p (keeps t))

-- A page ends without a panic, and with the same ids.
abbrev pub PassEnds : World → Pass → Type 0
PassEnds w (goes_on w') = SameIds w w'
PassEnds w (returns w') = Unit
PassEnds w panics = ⊥

-- A loop ends with its work done, or with an early return.
abbrev pub Ends : Poll → Type 0
Ends (finished w) = Unit
Ends panicked = ⊥
Ends (out_of_fuel w) = ⊥

module _ (status : TxStatus) (chain_id chunk : ℕ) (link : ℕ → Option Text)
    (body : ℕ → List Transaction → World → Pass)
    (body_ends : (n : ℕ) (cursor : Option ℕ) (w : World)
      → PassEnds w (body n (page status chain_id chunk cursor w.db) w)) where
  pages_end :
      (fuel n : ℕ) (cursor : Option ℕ) (w : World)
      → count_if (λ t. is_after cursor t.id) w.db.transactions < fuel
      → Ends (pages (page status chain_id chunk) link body chunk fuel n cursor w)
  unfolding pages
  pages_end zero n cursor w h = omega arith
  pages_end (suc fuel) n cursor w h = on_page_ends (link n) λ w' last e same.
      pages_end fuel (suc n) (some last.id) w' (
        let k = same (λ id. is_after (some last.id) id) in
        omega (arith, k, cursor_advances status chain_id chunk cursor w.db last e))
    where
      txs : List Transaction
      txs = page status chain_id chunk cursor w.db

      next : ℕ → World → Poll
      next last w' = pages (page status chain_id chunk) link body chunk fuel (suc n) (some last) w'

      Rest : Option Transaction → Type 0
      Rest o =
          (w' : World) (last : Transaction) → o ≡ some last → SameIds w w' → Ends (next last.id w')

      after_pass_ends :
          (short : Bool) (last : Transaction) (b : Pass)
          → PassEnds w b
          → Rest (some last)
          → Ends (after_pass short b (next last.id))
      after_pass_ends short last panics h rest = h
      after_pass_ends short last (returns w') h rest = tt
      after_pass_ends true last (goes_on w') h rest = tt
      after_pass_ends false last (goes_on w') h rest = rest w' last refl h

      on_last_ends :
          (o : Option Transaction) (short : Bool)
          → Rest o
          → Ends (on_last o short w (body n txs) next)
      on_last_ends none short rest = tt
      on_last_ends (some last) short rest =
          after_pass_ends short last (body n txs w) (body_ends n cursor w) rest

      on_page_ends :
          (l : Option Text)
          → Rest (get_last? txs)
          → Ends (on_page (guarded l (ok txs)) chunk w (body n) next)
      on_page_ends (some e) rest = tt
      on_page_ends none rest = on_last_ends (get_last? txs) (ltb (length txs) chunk) rest

count-length : {A : Type 0} (p : A → Bool) (xs : List A) → count_if p xs ≤ length xs
count-length p [] = omega arith
count-length p (x ∷ xs) = ground (arith, count-length p xs)

module _ (rp : ReceiptPoller) (all : PollAnswers) where
  check_ready-PassEnds :
      (n current : ℕ) (receipts : List (ℕ × Receipt)) (txs : List Transaction) (base w : World)
      → SameIds base w
      → PassEnds base (check_ready rp (all.answers n) current txs receipts w)
  unfolding check_ready
  check_ready-PassEnds n current receipts [] base w same = same
  check_ready-PassEnds n current receipts (tx ∷ txs) base w same =
      check_ready-PassEnds n current receipts txs base _ (λ p.
        Change-SameIds tx.id _ w _
          (check_included-Change rp (all.answers n tx.id) tx w current (or_zero tx.block_number)
            (receipt_for (or_zero tx.final_tx_hash) receipts))
          p
        ∙ same p)

  included_page-PassEnds :
      (current n : ℕ) (txs : List Transaction) (w : World)
      → PassEnds w (included_page rp all current n txs w)
  unfolding included_page
  included_page-PassEnds current n txs w = go (ready_txs rp current txs)
    where
      answer :
          (t : Transaction) (ts : List Transaction) (r : Result Text (List (ℕ × Receipt)))
          → PassEnds w (on_receipts (check_ready rp (all.answers n) current (t ∷ ts)) r w)
      answer t ts (err e) = tt
      answer t ts (ok receipts) = check_ready-PassEnds n current receipts (t ∷ ts) w w (λ p. refl)

      go :
          (ready : List Transaction)
          → PassEnds w (elim ready [
            | [] ↦ goes_on w
            | t ∷ ts ↦
                on_receipts
                  (check_ready rp (all.answers n) current (t ∷ ts))
                  (all.receipts n (ready_hashes (t ∷ ts)))
                  w
          ])
      go [] = λ p. refl
      go (t ∷ ts) = answer t ts (all.receipts n (ready_hashes (t ∷ ts)))

  -- `pollIncluded` ends, without a panic, whatever the database and the node answer: the fuel of
  -- the model, one more page than there are rows, is never used up.
  pub poll_included-Ends : (head : Result Text ℕ) (w : World) → Ends (poll_included rp all head w)
  unfolding poll_included get_included_transactions
  poll_included-Ends (err e) w = tt
  poll_included-Ends (ok current) w = elim (Bool-cases (rp.confirmation_blocks == 0)) [
    | inl direct ↦ rw direct tt
    | inr waits ↦ rw waits (
        pages_end TxStatus.included rp.chain_id rp.receipt_chunk_size all.list_link
          (included_page rp all current)
          (λ n cursor v.
            included_page-PassEnds current n
              (page TxStatus.included rp.chain_id rp.receipt_chunk_size cursor v.db) v)
          (suc (length w.db.transactions)) 0 none w
          (omega (arith, count-length (λ t. is_after none t.id) w.db.transactions)))
  ]

-- The node answers for the hashes that it was asked for, and for no other.
abbrev pub AnswersAsked : PollAnswers → Type 0
AnswersAsked all =
    (n : ℕ) (hashes : List ℕ)
    → Ensures (All (λ (k : ℕ × Receipt). In k.0 hashes)) (all.receipts n hashes)

asked_is_known :
    (h : ℕ) (txs : List Transaction)
    → In h (hashes_of txs)
    → (tx : Transaction) × (hash_to_tx h txs ≡ some tx)
unfolding hashes_of hash_to_tx
asked_is_known h [] i = absurd i
asked_is_known h (tx ∷ txs) i = go tx.final_tx_hash (hash_to_tx h txs) i (asked_is_known h txs)
  where
    go :
        (mine : Option ℕ) (o : Option Transaction)
        → In h (with_hash mine (hashes_of txs))
        → (In h (hashes_of txs) → (u : Transaction) × (o ≡ some u))
        → (u : Transaction) × (later_or o (has_final_hash mine h) tx ≡ some u)
    go mine (some u) j rest = (u, refl)
    go none none j rest = absurd (let (u, e) = rest j in cc)
    go (some g) none (inl e) rest = (tx, rw (e, ==_refl h) refl)
    go (some g) none (inr j) rest = absurd (let (u, e) = rest j in cc)

module _ (rp : ReceiptPoller) (all : PollAnswers) (asked : AnswersAsked all) where
  apply_receipts-PassEnds :
      (n : ℕ) (txs : List Transaction) (receipts : List (ℕ × Receipt)) (base w : World)
      → All (λ (k : ℕ × Receipt). In k.0 (hashes_of txs)) receipts
      → SameIds base w
      → PassEnds base (apply_receipts rp (all.answers n) txs receipts w)
  unfolding apply_receipts
  apply_receipts-PassEnds n txs [] base w known same = same
  apply_receipts-PassEnds n txs ((h, receipt) ∷ rest) base w known same =
      let (tx, e) = asked_is_known h txs known.0 in
      rw e (
        apply_receipts-PassEnds n txs rest base
          (apply_receipt rp (all.answers n tx.id) tx receipt w) known.1
          (λ p.
            Change-SameIds tx.id _ w _ (apply_receipt-Change rp (all.answers n tx.id) tx w receipt)
              p
            ∙ same p))

  submitted_page-PassEnds :
      (n : ℕ) (txs : List Transaction) (w : World) → PassEnds w (submitted_page rp all n txs w)
  unfolding submitted_page
  submitted_page-PassEnds n txs w = go (hashes_of txs) refl
    where
      answer :
          (r : Result Text (List (ℕ × Receipt)))
          → Ensures (All (λ (k : ℕ × Receipt). In k.0 (hashes_of txs))) r
          → PassEnds w (on_receipts (apply_receipts rp (all.answers n) txs) r w)
      answer (err e) known = tt
      answer (ok receipts) known = apply_receipts-PassEnds n txs receipts w w known (λ p. refl)

      go :
          (hashes : List ℕ)
          → hashes_of txs ≡ hashes
          → PassEnds w (elim hashes [
            | [] ↦ goes_on w
            | h ∷ hs ↦
                on_receipts (apply_receipts rp (all.answers n) txs) (all.receipts n (h ∷ hs)) w
          ])
      go [] e = λ p. refl
      go (h ∷ hs) e = answer (all.receipts n (h ∷ hs)) (rw e (asked n (h ∷ hs)))

  -- `pollSubmitted` ends, without a panic, if the node answers only for hashes that it was asked
  -- for: the fuel of the model, one more page than there are rows, is never used up.
  pub poll_submitted-Ends : (w : World) → Ends (poll_submitted rp all w)
  unfolding poll_submitted get_submitted_transactions
  poll_submitted-Ends w =
      pages_end TxStatus.submitted rp.chain_id rp.receipt_chunk_size all.list_link
        (submitted_page rp all)
        (λ n cursor v.
          submitted_page-PassEnds n
            (page TxStatus.submitted rp.chain_id rp.receipt_chunk_size cursor v.db) v)
        (suc (length w.db.transactions)) 0 none w
        (omega (arith, count-length (λ t. is_after none t.id) w.db.transactions))
