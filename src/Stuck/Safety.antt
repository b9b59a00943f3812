-- ===== src/Stuck/Safety.antt =====
-- What every run of `check` keeps.
use evm_tx_sender.Prelude.{
  codes, ℕ, ◌+◌, ◌-◌, ◌≤◌, Text, ◌≡◌, refl, ap, ◌∙◌, Option, none, some, List, [], ◌∷◌, ◌++◌, ◌⊎◌,
  inl, inr, length, count_if, count_if-append, All, ◌==◌, ==_iff, arith, Bool-cases,
}
use evm_tx_sender.Domain.{Transaction, TxAttempt, TxStatus, max_retries_exceeded}
use evm_tx_sender.Repo.{
  find_tx, update_tx, set_failed, set_submitted, get_attempts_by_transaction_id,
  get_stuck_transactions,
}
use evm_tx_sender.Repo.Lookup.{find-update_tx, find-update_tx_ne}
use evm_tx_sender.Worker.{World, Env}
use evm_tx_sender.Worker.Ahead.{WrittenAhead, WrittenAhead-same, WrittenAhead-send}
use evm_tx_sender.Stuck.{StuckDetector, check}
use evm_tx_sender.Stuck.Steps.{Step, idle, gave_up, replaced, resubmitted, Survives, Replaces}
use evm_tx_sender.Stuck.Runs.{
  Steps, done, followed, IsBacked, attempts_of, attempts_read, check-Steps,
}

Survives-map :
    (P Q : World → Type 0) (o : Option World)
    → ((w : World) → P w → Q w)
    → Survives P o
    → Survives Q o
Survives-map P Q none f h = h
Survives-map P Q (some w) f h = f w h

module _ (sd : StuckDetector) (txs : List Transaction) where
  Step-WrittenAhead :
      (tx : Transaction) (attempts : List TxAttempt) (w w' : World)
      → Step sd tx attempts w w'
      → WrittenAhead w
      → WrittenAhead w'
  Step-WrittenAhead tx attempts w w' (idle same) h =
      WrittenAhead-same w w' same.same_attempts same.same_sent h
  Step-WrittenAhead tx attempts w w' (gave_up now many rows old sent) h =
      WrittenAhead-same w w' old sent h
  Step-WrittenAhead tx attempts w w' (replaced a r rows new sent) h =
      WrittenAhead-send a 1 w w' new sent h
  Step-WrittenAhead tx attempts w w' (resubmitted a now r rows new sent) h =
      WrittenAhead-send a 1 w w' new sent h

  Steps-WrittenAhead : (w w' : World) → Steps sd txs w w' → WrittenAhead w → WrittenAhead w'
  Steps-WrittenAhead w w' done h = h
  Steps-WrittenAhead w w'' (followed {w'} run tx _ i s) h =
      Step-WrittenAhead tx _ w' w'' s (Steps-WrittenAhead w w' run h)

  -- One more attempt at most, and only behind at most five.
  one_more :
      (tx : Transaction) (a : TxAttempt) (w w' : World)
      → Replaces sd tx (get_attempts_by_transaction_id tx.id w.db) a
      → w'.db.attempts ≡ w.db.attempts ++ a ∷ []
      → (id : ℕ) → attempts_of id w ≤ 6
      → attempts_of id w' ≤ 6
  one_more tx a w w' r new id h =
      let within = r.within_limit in
      let mine = r.of_transaction in
      rw (new, count_if-append (λ b. b.transaction_id == id) w.db.attempts (a ∷ []), mine)
        (go (attempts_read tx.id w) within)
    where
      go :
          length (get_attempts_by_transaction_id tx.id w.db) ≡ attempts_of tx.id w
          → length (get_attempts_by_transaction_id tx.id w.db) ≤ 5
          → attempts_of id w + count_if (λ t. tx.id == id) (a ∷ []) ≤ 6
      go e k = elim (Bool-cases (tx.id == id)) [
        | inl same ↦ let p : tx.id ≡ id = (==_iff tx.id id).0 same in rw (same, ← p) (omega arith)
        | inr other ↦ rw other (omega arith)
      ]

  Step-limit :
      (tx : Transaction) (w w' : World)
      → Step sd tx (get_attempts_by_transaction_id tx.id w.db) w w'
      → (id : ℕ) → attempts_of id w ≤ 6
      → attempts_of id w' ≤ 6
  Step-limit tx w w' (idle same) id h = rw same.same_attempts h
  Step-limit tx w w' (gave_up now many rows old sent) id h = rw old h
  Step-limit tx w w' (replaced a r rows new sent) id h = one_more tx a w w' r new id h
  Step-limit tx w w' (resubmitted a now r rows new sent) id h = one_more tx a w w' r new id h

  Steps-limit :
      (w w' : World) → Steps sd txs w w' → (id : ℕ) → attempts_of id w ≤ 6 → attempts_of id w' ≤ 6
  Steps-limit w w' done id h = h
  Steps-limit w w'' (followed {w'} run tx _ i s) id h =
      Step-limit tx w' w'' s id (Steps-limit w w' run id h)

-- A row asks for the same transfer as before, from the same nonce, and was not moved but to
-- submitted, or to failed.
pub record Follows (row row' : Transaction) : Type 0 where
  pub same_nonce : row'.nonce ≡ row.nonce
  pub same_sender : row'.sender ≡ row.sender
  pub same_to : row'.to_address ≡ row.to_address
  pub same_value : row'.value ≡ row.value
  pub same_payload : row'.payload ≡ row.payload
  pub moved :
      (row'.status ≡ row.status)
      ⊎ ((row'.status ≡ TxStatus.submitted) ⊎ (row'.status ≡ TxStatus.failed))

abbrev pub RowFollows : ℕ → Transaction → World → Type 0
RowFollows id row w =
    (row' : Transaction) × (find_tx id w.db.transactions ≡ some row') × Follows row row'

moved_to :
    (id tx_id : ℕ) (f : Transaction → Transaction) (row : Transaction) (w w' : World)
    → ((t : Transaction) → (f t).id ≡ t.id)
    → ((t : Transaction) → Follows row t → Follows row (f t))
    → w'.db.transactions ≡ update_tx tx_id f w.db.transactions
    → RowFollows id row w
    → RowFollows id row w'
moved_to id tx_id f row w w' keeps_id moves rows (t, there, follows) =
    elim (Bool-cases (id == tx_id)) [
      | inl same ↦ mine ((==_iff id tx_id).0 same)
      | inr other ↦ (
        t,
        ap (find_tx id) rows
            ∙ find-update_tx_ne tx_id f keeps_id id w.db.transactions (λ e. ground arith)
            ∙ there,
        follows,
      )
    ]
  where
    mine : id ≡ tx_id → RowFollows id row w'
    mine e = (
      f t,
      ap (find_tx id) rows
          ∙ rw e (find-update_tx tx_id f keeps_id w.db.transactions t (rw (← e) there)),
      moves t follows,
    )

failed_Follows :
    (row t : Transaction) (now : ℕ)
    → Follows row t
    → Follows row (set_failed max_retries_exceeded (codes "max gas bumps exceeded") now t)
unfolding set_failed
failed_Follows row t now h = record {
  same_nonce = h.same_nonce;
  same_sender = h.same_sender;
  same_to = h.same_to;
  same_value = h.same_value;
  same_payload = h.same_payload;
  moved = inr (inr refl);
}

submitted_Follows :
    (row t : Transaction) (tx_hash now : ℕ)
    → Follows row t
    → Follows row (set_submitted tx_hash now t)
unfolding set_submitted
submitted_Follows row t tx_hash now h = record {
  same_nonce = h.same_nonce;
  same_sender = h.same_sender;
  same_to = h.same_to;
  same_value = h.same_value;
  same_payload = h.same_payload;
  moved = inr (inl refl);
}

RowFollows-same :
    (id : ℕ) (row : Transaction) (w w' : World)
    → w'.db.transactions ≡ w.db.transactions
    → RowFollows id row w
    → RowFollows id row w'
RowFollows-same id row w w' rows (t, there, h) = (t, ap (find_tx id) rows ∙ there, h)

module _ (sd : StuckDetector) (id : ℕ) (row : Transaction) where
  Step-RowFollows :
      (tx : Transaction) (attempts : List TxAttempt) (w w' : World)
      → Step sd tx attempts w w'
      → RowFollows id row w
      → RowFollows id row w'
  Step-RowFollows tx attempts w w' (idle same) h =
      RowFollows-same id row w w' same.same_transactions h
  Step-RowFollows tx attempts w w' (gave_up now many rows old sent) h =
      moved_to id tx.id (set_failed max_retries_exceeded (codes "max gas bumps exceeded") now) row w
        w' (λ t. unfold set_failed in refl) (λ t. failed_Follows row t now) rows h
  Step-RowFollows tx attempts w w' (replaced a r rows new sent) h =
      RowFollows-same id row w w' rows h
  Step-RowFollows tx attempts w w' (resubmitted a now r rows new sent) h =
      moved_to id tx.id (set_submitted a.tx_hash now) row w w' (λ t. unfold set_submitted in refl)
        (λ t. submitted_Follows row t a.tx_hash now) rows h

  Steps-RowFollows :
      (txs : List Transaction) (w w' : World)
      → Steps sd txs w w'
      → RowFollows id row w
      → RowFollows id row w'
  Steps-RowFollows txs w w' done h = h
  Steps-RowFollows txs w w'' (followed {w'} run tx _ i s) h =
      Step-RowFollows tx _ w' w'' s (Steps-RowFollows txs w w' run h)

module _ (sd : StuckDetector) (link : Option Text) (envs : ℕ → Env) (now : ℕ) (w : World)
    (backed : All
      (IsBacked w)
      (get_stuck_transactions sd.chain.chain_id (now - sd.stuck_threshold) w.db)) where
  -- A pass of `check` over transactions that have an attempt or no nonce survives, and keeps every
  -- hash handed to a node recorded in a stored attempt.
  pub check-WrittenAhead : WrittenAhead w → Survives WrittenAhead (check sd link envs now w)
  check-WrittenAhead h =
      Survives-map (Steps sd _ w) WrittenAhead _ (λ w' run. Steps-WrittenAhead sd _ w w' run h)
        (check-Steps sd link envs now w backed)

  -- A pass of `check` over transactions that have an attempt or no nonce survives, and a
  -- transaction with at most six attempts has at most six behind it: the first and five bumps.
  pub check_limits_attempts :
      (id : ℕ)
      → attempts_of id w ≤ 6
      → Survives (λ w'. attempts_of id w' ≤ 6) (check sd link envs now w)
  check_limits_attempts id h =
      Survives-map (Steps sd _ w) (λ w'. attempts_of id w' ≤ 6) _
        (λ w' run. Steps-limit sd _ w w' run id h) (check-Steps sd link envs now w backed)

  -- A pass of `check` over transactions that have an attempt or no nonce survives, loses no row,
  -- and leaves in each row the nonce, the sender, the receiver, the value and the payload: a bump
  -- pays more for the same transfer at the same nonce. The status of a row is the same behind it,
  -- or submitted, or failed.
  pub check_keeps_transfers :
      (id : ℕ) (row : Transaction)
      → find_tx id w.db.transactions ≡ some row
      → Survives (RowFollows id row) (check sd link envs now w)
  check_keeps_transfers id row there =
      Survives-map (Steps sd _ w) (RowFollows id row) _
        (λ w' run. Steps-RowFollows sd id row _ w w' run (
          row,
          there,
          record {
            same_nonce = refl;
            same_sender = refl;
            same_to = refl;
            same_value = refl;
            same_payload = refl;
            moved = inl refl;
          },
        ))
        (check-Steps sd link envs now w backed)
