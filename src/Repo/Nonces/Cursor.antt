-- ===== src/Repo/Nonces/Cursor.antt =====
-- Moving the cursor of a pair keeps the invariant where the nonces from the new one on are free.
use evm_tx_sender.Prelude.{
  ℕ, ◌≤◌, ◌≡◌, ◌⊎◌, inl, inr, Bool-cases, List, [], ◌∷◌, ◌++◌, Ensures, arith, find?, update,
}
use evm_tx_sender.Domain.{NonceCursor}
use evm_tx_sender.Repo.{
  Db, any, get_nonce_cursor, is_cursor_of, greatest, init_nonce_cursor, set_nonce_cursor,
}
use evm_tx_sender.Repo.Nonces.Invariant.{holders, next_of, NonceInv}

-- Where a pair's cursor stands behind a write of the cursor of the pair `s`, `c`.
abbrev Moved : ℕ → ℕ → ℕ → ℕ → ℕ → ℕ → ℕ → Type 0
Moved s c n s' c' old new = (old ≤ new) ⊎ ((s' ≡ s) × (c' ≡ c) × (n ≤ new))

set_moves :
    (s c n s' c' : ℕ) (rows : List NonceCursor)
    → Moved s c n s' c' (next_of (find? (is_cursor_of s' c') rows)) (
        next_of (
          find?
            (is_cursor_of s' c')
            (update (is_cursor_of s c) (λ r. record r { next_nonce = n }) rows)))
set_moves s c n s' c' [] = inl (omega arith)
set_moves s c n s' c' (r ∷ rows) = ground (arith, set_moves s c n s' c' rows)

raise_moves :
    (s c n s' c' : ℕ) (rows : List NonceCursor)
    → Moved s c n s' c' (next_of (find? (is_cursor_of s' c') rows)) (
        next_of (
          find? (is_cursor_of s' c') (
            update
              (is_cursor_of s c)
              (λ r. record r { next_nonce = greatest r.next_nonce n })
              rows)))
raise_moves s c n s' c' [] = inl (omega arith)
raise_moves s c n s' c' (r ∷ rows) = ground (arith, raise_moves s c n s' c' rows)

insert_moves :
    (s c n s' c' : ℕ) (rows : List NonceCursor)
    → Moved s c n s' c' (next_of (find? (is_cursor_of s' c') rows)) (
        next_of (
          find?
            (is_cursor_of s' c')
            (rows ++ record { sender = s; chain_id = c; next_nonce = n } ∷ [])))
insert_moves s c n s' c' [] = ground arith
insert_moves s c n s' c' (r ∷ rows) = ground (arith, insert_moves s c n s' c' rows)

module _ (s c n : ℕ) (db : Db) (inv : NonceInv db)
    (free : (m : ℕ) → n ≤ m → holders s c m db.transactions ≡ 0) where
  still_below :
      (s' c' m new : ℕ)
      → Moved s c n s' c' (next_of (get_nonce_cursor s' c' db)) new
      → new ≤ m
      → holders s' c' m db.transactions ≡ 0
  still_below s' c' m new (inl up) h = inv.nonces_below s' c' m (omega arith)
  still_below s' c' m new (inr (es, ec, up)) h = rw (es, ec) (free m (omega arith))

  -- `SetNonceCursor` keeps the invariant of the nonces, if no transaction of the pair holds a
  -- nonce from the new one on.
  pub set_nonce_cursor-NonceInv : Ensures NonceInv (set_nonce_cursor s c n db)
  unfolding set_nonce_cursor get_nonce_cursor still_below
  set_nonce_cursor-NonceInv = record {
    ids_unique = inv.ids_unique;
    nonces_unique = inv.nonces_unique;
    nonces_below = λ s' c' m h. still_below s' c' m _ (set_moves s c n s' c' db.nonce_cursors) h;
  }

  -- So does `InitNonceCursor`, whether or not the pair has a cursor.
  pub init_nonce_cursor-NonceInv : Ensures NonceInv (init_nonce_cursor s c n db)
  unfolding init_nonce_cursor get_nonce_cursor still_below
  init_nonce_cursor-NonceInv = elim (Bool-cases (any (is_cursor_of s c) db.nonce_cursors)) [
    | inl e ↦ rw e (record {
      ids_unique = inv.ids_unique;
      nonces_unique = inv.nonces_unique;
      nonces_below =
          λ s' c' m h. still_below s' c' m _ (raise_moves s c n s' c' db.nonce_cursors) h;
    })
    | inr e ↦ rw e (record {
      ids_unique = inv.ids_unique;
      nonces_unique = inv.nonces_unique;
      nonces_below =
          λ s' c' m h. still_below s' c' m _ (insert_moves s c n s' c' db.nonce_cursors) h;
    })
  ]
