-- ===== src/Repo/Nonces/Invariant.antt =====
-- The invariant of the nonces.
use evm_tx_sender.Prelude.{ℕ, ◌≤◌, ◌≡◌, Bool, false, ◌&&◌, List, Option, none, some, count_if, ◌==◌}
use evm_tx_sender.Domain.{Transaction, NonceCursor}
use evm_tx_sender.Repo.{Db, has_id, get_nonce_cursor}

abbrev pub holds_number : ℕ → Option ℕ → Bool
holds_number n none = false
holds_number n (some m) = m == n

-- Whether a transaction of a sender on a chain holds a nonce.
abbrev pub holds : ℕ → ℕ → ℕ → Transaction → Bool
holds sender chain_id n t = t.sender == sender && (t.chain_id == chain_id && holds_number n t.nonce)

-- How many transactions hold a nonce.
abbrev pub holders : ℕ → ℕ → ℕ → List Transaction → ℕ
holders sender chain_id n rows = count_if (holds sender chain_id n) rows

-- The next nonce of a cursor; with no cursor nothing can be assigned.
abbrev pub next_of : Option NonceCursor → ℕ
next_of none = 0
next_of (some c) = c.next_nonce

pub record NonceInv (db : Db) : Type 0 where
  pub ids_unique : (id : ℕ) → count_if (has_id id) db.transactions ≤ 1
  pub nonces_unique : (sender chain_id n : ℕ) → holders sender chain_id n db.transactions ≤ 1
  pub nonces_below :
      (sender chain_id n : ℕ)
      → next_of (get_nonce_cursor sender chain_id db) ≤ n
      → holders sender chain_id n db.transactions ≡ 0
