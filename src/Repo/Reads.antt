-- ===== src/Repo/Reads.antt =====
-- The methods of repo.go that only read.
use evm_tx_sender.Prelude.{
  ℕ, Text, Bool, true, false, ◌&&◌, ◌||◌, List, [], ◌∷◌, Option, none, some, Result, ok, err,
  text_eq, length, take, select, find?, is_empty, ℤ, pos, negsuc, ltb, leb, ◌==◌, if◌then◌else◌,
}
use evm_tx_sender.Domain.{
  Transaction, TxStatus, status_eq, status_text, address_text, TxAttempt, AttemptStatus,
}
use evm_tx_sender.Repo.Tables.{Db, find_tx, any}
use evm_tx_sender.Repo.Writes.{no_rows, is_queued_for}

-- `ORDER BY key ASC`
module _ {ℓ} {A : Type ℓ} (key : A → ℕ) where
  unfoldable pub insert_by : A → List A → List A
  insert_by x [] = x ∷ []
  insert_by x (y ∷ ys) = if leb (key x) (key y) then x ∷ y ∷ ys else y ∷ insert_by x ys

  unfoldable pub sort_by : List A → List A
  unfolding insert_by
  sort_by [] = []
  sort_by (x ∷ xs) = insert_by x (sort_by xs)

-- A missing row is the error `pgx.ErrNoRows`.
unfoldable pub get_transaction : ℕ → Db → Result Text Transaction
get_transaction id db = elim (find_tx id db.transactions) [ none ↦ err no_rows | some t ↦ ok t ]

-- A missing row is no error, but nil.
unfoldable pub get_transaction_by_idempotency_key : Text → Db → Option Transaction
get_transaction_by_idempotency_key key db =
    find? (λ t. text_eq t.idempotency_key key) db.transactions

unfoldable pub get_attempts_by_transaction_id : ℕ → Db → List TxAttempt
unfolding sort_by
get_attempts_by_transaction_id tx_id db =
    sort_by (λ a. a.attempt_number) (select (λ a. a.transaction_id == tx_id) db.attempts)

abbrev is_attempt_broadcast : AttemptStatus → Bool
is_attempt_broadcast AttemptStatus.attempt_broadcast = true
is_attempt_broadcast _ = false

unfoldable pub get_broadcast_attempts_by_chain : ℕ → Db → List TxAttempt
unfolding sort_by
get_broadcast_attempts_by_chain chain_id db =
    sort_by (λ a. a.created_at)
      (select
        (λ a.
          is_attempt_broadcast a.status
          && any (λ t. t.id == a.transaction_id && t.chain_id == chain_id) db.transactions)
        db.attempts)

abbrev pub is_after : Option ℕ → ℕ → Bool
is_after none id = true
is_after (some cursor) id = ltb cursor id

abbrev pub in_status_on : TxStatus → ℕ → Option ℕ → Transaction → Bool
in_status_on status chain_id after t =
    status_eq t.status status && (t.chain_id == chain_id && is_after after t.id)

-- One page of the transactions of a chain in a status, behind the cursor `after`, by id.
unfoldable pub page : TxStatus → ℕ → ℕ → Option ℕ → Db → List Transaction
unfolding sort_by
page status chain_id limit after db =
    take limit (sort_by (λ t. t.id) (select (in_status_on status chain_id after) db.transactions))

unfoldable pub get_submitted_transactions : ℕ → ℕ → Option ℕ → Db → List Transaction
unfolding page
get_submitted_transactions chain_id limit after db = page TxStatus.submitted chain_id limit after db

unfoldable pub get_included_transactions : ℕ → ℕ → Option ℕ → Db → List Transaction
unfolding page
get_included_transactions chain_id limit after db = page TxStatus.included chain_id limit after db

abbrev pub is_before : Option ℕ → ℕ → Bool
is_before none time = false
is_before (some at) time = ltb at time

unfoldable pub get_stuck_transactions : ℕ → ℕ → Db → List Transaction
unfolding sort_by
get_stuck_transactions chain_id submitted_before db =
    sort_by (λ t. t.id)
      (select
        (λ t.
          status_eq t.status TxStatus.submitted
          && (t.chain_id == chain_id && is_before t.submitted_at submitted_before))
        db.transactions)

unfoldable pub count_queued_transactions : ℕ → ℕ → Db → ℕ
count_queued_transactions sender chain_id db =
    length (select (is_queued_for sender chain_id) db.transactions)

-- `TxFilter`: a filter whose text is empty is left out, and `limit` is an `int`.
pub record TxFilter : Type 0 where
  pub chain_id : Option ℕ
  pub sender : Text
  pub status : Text
  pub limit : ℤ
  pub after : Option ℕ

abbrev matches_number : Option ℕ → ℕ → Bool
matches_number none n = true
matches_number (some m) n = n == m

abbrev matches_text : Text → Text → Bool
matches_text filter column = is_empty filter || text_eq column filter

-- The conditions besides the cursor.
unfoldable pub matches_columns : TxFilter → Transaction → Bool
matches_columns filter t =
    matches_number filter.chain_id t.chain_id
    && (matches_text filter.sender (address_text t.sender)
        && matches_text filter.status (status_text t.status))

abbrev pub matches_filter : TxFilter → Transaction → Bool
matches_filter filter t = matches_columns filter t && is_after filter.after t.id

unfoldable pub page_limit : ℤ → ℕ
page_limit (pos n) = if n == 0 || ltb 100 n then 50 else n
page_limit (negsuc n) = 50

unfoldable pub list_transactions : TxFilter → Db → List Transaction
unfolding sort_by page_limit matches_columns
list_transactions filter db =
    take (page_limit filter.limit)
      (sort_by (λ t. t.id) (select (matches_filter filter) db.transactions))
