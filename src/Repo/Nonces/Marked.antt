-- ===== src/Repo/Nonces/Marked.antt =====
-- `MarkPending` and `IncrementNonceCursor`, which nothing calls on their own, and the nonces.
use evm_tx_sender.Prelude.{
  ℕ, ◌+◌, ◌≤◌, ◌<◌, ◌≡◌, refl, true, Bool-cases, List, inl, inr, Option-cases, Ensures, arith, none,
  some, ok, err, update, if◌then◌else◌,
}
use evm_tx_sender.Domain.{Transaction, NonceCursor}
use evm_tx_sender.Repo.{
  Db, has_id, find_tx, update_tx, get_nonce_cursor, is_cursor_of, advance, set_nonce, mark_pending,
  increment_nonce_cursor, no_rows,
}
use evm_tx_sender.Repo.Lookup.{count-update_tx, count-update_tx_kept}
use evm_tx_sender.Repo.Nonces.Invariant.{holds, holders, next_of, NonceInv}
use evm_tx_sender.Repo.Nonces.Assign.{next_of-advance}

-- The nonce is below the cursor of the pair of the row, and no transaction of the pair holds it.
abbrev pub IsOpen : ℕ → Transaction → Db → Type 0
IsOpen n t db =
    (holders t.sender t.chain_id n db.transactions ≡ 0)
    × (n < next_of (get_nonce_cursor t.sender t.chain_id db))

module _ (id n now : ℕ) (db : Db) (t : Transaction) (inv : NonceInv db)
    (row : find_tx id db.transactions ≡ some t) (free : IsOpen n t db) where
  abbrev rows' : List Transaction
  rows' = update_tx id (set_nonce n now) db.transactions

  gains :
      (s c m : ℕ)
      → holds s c m (set_nonce n now t) ≡ true
      → (s ≡ t.sender) × (c ≡ t.chain_id) × (m ≡ n)
  unfolding set_nonce
  gains s c m h = ground arith

  moved :
      (s c m : ℕ)
      → holders s c m rows' + (if holds s c m t then 1 else 0)
        ≡ holders s c m db.transactions + (if holds s c m (set_nonce n now t) then 1 else 0)
  moved s c m =
      count-update_tx id (set_nonce n now) (holds s c m) db.transactions t (inv.ids_unique id) row

  unique' : (s c m : ℕ) → holders s c m rows' ≤ 1
  unique' s c m = elim (Bool-cases (holds s c m (set_nonce n now t))) [
    | inl e ↦
        let (es, ec, em) = gains s c m e in
        let nobody : holders s c m db.transactions ≡ 0 = rw (es, ec, em) free.0 in
        let step = rw e at (moved s c m) in omega (arith, nobody, step)
    | inr e ↦ let step = rw e at (moved s c m) in omega (arith, inv.nonces_unique s c m, step)
  ]

  below' : (s c m : ℕ) → next_of (get_nonce_cursor s c db) ≤ m → holders s c m rows' ≡ 0
  below' s c m h =
      let nobody = inv.nonces_below s c m h in
      elim (Bool-cases (holds s c m (set_nonce n now t))) [
        | inl e ↦
            let (es, ec, em) = gains s c m e in
            let past : next_of (get_nonce_cursor t.sender t.chain_id db) ≤ m = rw (← es, ← ec) h in
            absurd (omega (arith, past, em, free.1))
        | inr e ↦ let step = rw e at (moved s c m) in omega (arith, nobody, step)
      ]

  pub mark_pending-NonceInv : Ensures NonceInv (mark_pending id n now db)
  unfolding mark_pending get_nonce_cursor
  mark_pending-NonceInv = record {
    ids_unique = λ j.
        rw
          (count-update_tx_kept id (set_nonce n now) (has_id j) db.transactions
            (λ u. unfold set_nonce in refl))
          (inv.ids_unique j);
    nonces_unique = unique';
    nonces_below = unfold get_nonce_cursor in below';
  }

advanced-NonceInv :
    (s c : ℕ) (db : Db)
    → NonceInv db
    → NonceInv (record db { nonce_cursors = update (is_cursor_of s c) advance db.nonce_cursors })
unfolding get_nonce_cursor
advanced-NonceInv s c db inv = record {
  ids_unique = inv.ids_unique;
  nonces_unique = inv.nonces_unique;
  nonces_below = λ s' c' m h.
      inv.nonces_below s' c' m (omega (arith, next_of-advance s' c' s c db.nonce_cursors, h));
}

incremented :
    (s c : ℕ) (db : Db) (r : NonceCursor)
    → get_nonce_cursor s c db ≡ some r
    → increment_nonce_cursor s c db
      ≡ ok (
        r.next_nonce,
        record db { nonce_cursors = update (is_cursor_of s c) advance db.nonce_cursors },
      )
unfolding increment_nonce_cursor
incremented s c db r found = rw (found, increment_nonce_cursor)

without_cursor :
    (s c : ℕ) (db : Db)
    → get_nonce_cursor s c db ≡ none
    → increment_nonce_cursor s c db ≡ err no_rows
unfolding increment_nonce_cursor
without_cursor s c db missing = rw (missing, increment_nonce_cursor)

pub increment_nonce_cursor-NonceInv :
    (s c : ℕ) (db : Db)
    → NonceInv db
    → Ensures (λ (out : ℕ × Db). NonceInv out.1) (increment_nonce_cursor s c db)
increment_nonce_cursor-NonceInv s c db inv = elim (Option-cases (get_nonce_cursor s c db)) [
  | inl missing ↦ rw (without_cursor s c db missing) tt
  | inr (r, cursor) ↦ rw (incremented s c db r cursor) (advanced-NonceInv s c db inv)
]
