-- ===== src/Repo/Lookup.antt =====
-- What an update of one row does to the rows that a later statement finds and counts.
use evm_tx_sender.Prelude.{
  ℕ, ◌+◌, ◌≤◌, Bool, List, [], ◌∷◌, some, ◌≡◌, ◌≢◌, ap, arith, count_if, ◌==◌, find-update,
  find-update_apart, count-update, count-update_kept, if◌then◌else◌,
}
use evm_tx_sender.Domain.{Transaction}
use evm_tx_sender.Repo.{find_tx, update_tx, has_id}

-- No statement of the program changes an id.
abbrev pub KeepsId : (Transaction → Transaction) → Type 0
KeepsId f = (t : Transaction) → (f t).id ≡ t.id

module _ (id : ℕ) (f : Transaction → Transaction) (keeps : KeepsId f) where
  has_id_kept : (j : ℕ) (t : Transaction) → has_id j (f t) ≡ has_id j t
  has_id_kept j t = ap (λ n. n == j) (keeps t)

  pub find-update_tx :
      (rows : List Transaction) (t : Transaction)
      → find_tx id rows ≡ some t
      → find_tx id (update_tx id f rows) ≡ some (f t)
  unfolding find_tx update_tx
  find-update_tx rows t found = find-update (has_id id) f rows t (has_id_kept id) found

  pub find-update_tx_ne :
      (j : ℕ) (rows : List Transaction) → j ≢ id → find_tx j (update_tx id f rows) ≡ find_tx j rows
  unfolding find_tx update_tx
  find-update_tx_ne j rows ne =
      find-update_apart (has_id id) f (has_id j) rows (has_id_kept j) λ t e. ground arith

-- Where an id is unique, an update of its row moves that row alone from the test's count before
-- to the count behind.
pub count-update_tx :
    (id : ℕ) (f : Transaction → Transaction) (q : Transaction → Bool) (rows : List Transaction)
    (t : Transaction)
    → count_if (has_id id) rows ≤ 1
    → find_tx id rows ≡ some t
    → count_if q (update_tx id f rows) + (if q t then 1 else 0)
      ≡ count_if q rows + (if q (f t) then 1 else 0)
unfolding find_tx update_tx
count-update_tx id f q rows t one found = count-update (has_id id) f q rows t one found

pub count-update_tx_kept :
    (id : ℕ) (f : Transaction → Transaction) (q : Transaction → Bool) (rows : List Transaction)
    → ((t : Transaction) → q (f t) ≡ q t)
    → count_if q (update_tx id f rows) ≡ count_if q rows
unfolding update_tx
count-update_tx_kept id f q rows keeps = count-update_kept (has_id id) f q rows keeps

pub find_tx-id :
    (id : ℕ) (rows : List Transaction) (t : Transaction) → find_tx id rows ≡ some t → t.id ≡ id
unfolding find_tx
find_tx-id id [] t found = cc
find_tx-id id (r ∷ rows) t found = ground (arith, find_tx-id id rows t)
