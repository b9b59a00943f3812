-- ===== src/Repo/Tables.antt =====
-- The tables of internal/infrastructure/postgres/migrations/001_init.sql, and one statement.
use evm_tx_sender.Prelude.{
  ℕ, Text, Bool, true, false, List, [], ◌∷◌, Option, none, some, Result, ok, err, find?, update,
  ◌==◌, if◌then◌else◌,
}
use evm_tx_sender.Domain.{Transaction, TxAttempt, NonceCursor, TxStateLog}

pub record Db : Type 0 where
  pub transactions : List Transaction
  pub attempts : List TxAttempt
  pub nonce_cursors : List NonceCursor
  pub tx_state_log : List TxStateLog

abbrev pub has_id : ℕ → Transaction → Bool
has_id id t = t.id == id

-- `SELECT … FROM transactions WHERE id = $1`
unfoldable pub find_tx : ℕ → List Transaction → Option Transaction
find_tx id rows = find? (has_id id) rows

-- `UPDATE transactions SET … WHERE id = $n`
unfoldable pub update_tx : ℕ → (Transaction → Transaction) → List Transaction → List Transaction
update_tx id f rows = update (has_id id) f rows

-- Whether a row passes a test.
abbrev pub any {ℓ} : {A : Type ℓ} → (A → Bool) → List A → Bool
any p [] = false
any p (x ∷ xs) = if p x then true else any p xs

-- One call of a method: with a connection error nothing is executed, and a refused statement
-- changes nothing. A reply that is lost behind an executed statement is not represented. The result
-- is the tables behind the call and the error that the caller sees.
abbrev pub call : Option Text → Db → Result Text Db → Db × Option Text
call (some e) db r = (db, some e)
call none db (ok db') = (db', none)
call none db (err e) = (db, some e)
