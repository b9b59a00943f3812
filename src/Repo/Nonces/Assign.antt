-- ===== src/Repo/Nonces/Assign.antt =====
-- `AssignNonceAndMarkPending` hands out a nonce that nobody holds.
use evm_tx_sender.Prelude.{
  ℕ, suc, ◌+◌, ◌≤◌, ◌≡◌, refl, ap, ◌∙◌, true, Bool-cases, List, [], ◌∷◌, none, some, inl, inr,
  Option-cases, ok, err, Ensures, Ensures-ok, arith, find?, update, if◌then◌else◌, find-update,
}
use evm_tx_sender.Domain.{Transaction, NonceCursor}
use evm_tx_sender.Repo.{
  Db, has_id, find_tx, update_tx, get_nonce_cursor, is_cursor_of, advance, set_nonce,
  assign_nonce_and_mark_pending, no_rows,
}
use evm_tx_sender.Repo.Lookup.{find-update_tx, count-update_tx, count-update_tx_kept}
use evm_tx_sender.Repo.Nonces.Invariant.{holds, holders, next_of, NonceInv}

-- The cursor of a pair behind an advance of the cursor of another.
pub next_of-advance :
    (s c s' c' : ℕ) (rows : List NonceCursor)
    → next_of (find? (is_cursor_of s c) rows)
      ≤ next_of (find? (is_cursor_of s c) (update (is_cursor_of s' c') advance rows))
next_of-advance s c s' c' [] = omega arith
next_of-advance s c s' c' (r ∷ rows) = ground (arith, next_of-advance s c s' c' rows)

next_of-advance_same :
    (s c : ℕ) (rows : List NonceCursor) (r : NonceCursor)
    → find? (is_cursor_of s c) rows ≡ some r
    → next_of (find? (is_cursor_of s c) (update (is_cursor_of s c) advance rows)) ≡ suc r.next_nonce
next_of-advance_same s c rows r found =
    ap next_of (find-update (is_cursor_of s c) advance rows r (λ y. refl) found) ∙ omega arith

-- The tables behind an assignment, in terms of the cursor that was found.
assigned :
    (id s c now : ℕ) (db : Db) (r : NonceCursor)
    → get_nonce_cursor s c db ≡ some r
    → assign_nonce_and_mark_pending id s c now db
      ≡ ok (
        r.next_nonce,
        record db {
          transactions = update_tx id (set_nonce r.next_nonce now) db.transactions;
          nonce_cursors = update (is_cursor_of s c) advance db.nonce_cursors;
        },
      )
unfolding assign_nonce_and_mark_pending
assigned id s c now db r found = rw (found, assign_nonce_and_mark_pending)

unassigned :
    (id s c now : ℕ) (db : Db)
    → get_nonce_cursor s c db ≡ none
    → assign_nonce_and_mark_pending id s c now db ≡ err no_rows
unfolding assign_nonce_and_mark_pending
unassigned id s c now db missing = rw (missing, assign_nonce_and_mark_pending)

module _ (id now : ℕ) (db : Db) (t : Transaction) (r : NonceCursor) (inv : NonceInv db)
    (row : find_tx id db.transactions ≡ some t)
    (cursor : get_nonce_cursor t.sender t.chain_id db ≡ some r) where
  abbrev rows' : List Transaction
  rows' = update_tx id (set_nonce r.next_nonce now) db.transactions

  abbrev cursors' : List NonceCursor
  cursors' = update (is_cursor_of t.sender t.chain_id) advance db.nonce_cursors

  abbrev t' : Transaction
  t' = set_nonce r.next_nonce now t

  -- Only the pair and the nonce handed out gain a holder.
  gains :
      (s c n : ℕ) → holds s c n t' ≡ true → (s ≡ t.sender) × (c ≡ t.chain_id) × (n ≡ r.next_nonce)
  unfolding set_nonce
  gains s c n h = ground arith

  moved :
      (s c n : ℕ)
      → holders s c n rows' + (if holds s c n t then 1 else 0)
        ≡ holders s c n db.transactions + (if holds s c n t' then 1 else 0)
  moved s c n =
      count-update_tx id (set_nonce r.next_nonce now) (holds s c n) db.transactions t
        (inv.ids_unique id) row

  -- The nonce is free when it is handed out.
  fresh : holders t.sender t.chain_id r.next_nonce db.transactions ≡ 0
  fresh = inv.nonces_below t.sender t.chain_id r.next_nonce (rw cursor (omega arith))

  unique' : (s c n : ℕ) → holders s c n rows' ≤ 1
  unique' s c n = elim (Bool-cases (holds s c n t')) [
    | inl e ↦
        let (es, ec, en) = gains s c n e in
        let free : holders s c n db.transactions ≡ 0 = rw (es, ec, en) fresh in
        let step = rw e at (moved s c n) in omega (arith, free, step)
    | inr e ↦ let step = rw e at (moved s c n) in omega (arith, inv.nonces_unique s c n, step)
  ]

  next' : (s c : ℕ) → ℕ
  next' s c = next_of (find? (is_cursor_of s c) cursors')

  next'_same : next' t.sender t.chain_id ≡ suc r.next_nonce
  unfolding get_nonce_cursor next'
  next'_same = next_of-advance_same t.sender t.chain_id db.nonce_cursors r cursor

  next-le-next' : (s c : ℕ) → next_of (get_nonce_cursor s c db) ≤ next' s c
  unfolding get_nonce_cursor next'
  next-le-next' s c = next_of-advance s c t.sender t.chain_id db.nonce_cursors

  below' : (s c n : ℕ) → next' s c ≤ n → holders s c n rows' ≡ 0
  below' s c n h =
      let free = inv.nonces_below s c n (omega (arith, next-le-next' s c)) in
      elim (Bool-cases (holds s c n t')) [
        | inl e ↦
            let (es, ec, en) = gains s c n e in
            let passed : suc r.next_nonce ≤ n = rw (← next'_same, ← es, ← ec) h in
            absurd (omega (arith, passed, en))
        | inr e ↦ let step = rw e at (moved s c n) in omega (arith, free, step)
      ]

  assigned-NonceInv : NonceInv (record db { transactions = rows'; nonce_cursors = cursors' })
  unfolding get_nonce_cursor next'
  assigned-NonceInv = record {
    ids_unique = λ j.
        rw
          (count-update_tx_kept id (set_nonce r.next_nonce now) (has_id j) db.transactions
            (λ u. unfold set_nonce in refl))
          (inv.ids_unique j);
    nonces_unique = unique';
    nonces_below = below';
  }

-- What an assignment establishes of the nonce that it returns and of the tables behind it.
abbrev pub Assigned : ℕ → ℕ → Db → Transaction → ℕ × Db → Type 0
Assigned id now db t (n, db') =
    NonceInv db'
    × (holders t.sender t.chain_id n db.transactions ≡ 0)
    × (next_of (get_nonce_cursor t.sender t.chain_id db) ≡ n)
    × (next_of (get_nonce_cursor t.sender t.chain_id db') ≡ suc n)
    × (find_tx id db'.transactions ≡ some (set_nonce n now t))

assign-Ensures :
    (id now : ℕ) (db : Db) (t : Transaction)
    → NonceInv db
    → find_tx id db.transactions ≡ some t
    → Ensures (Assigned id now db t) (assign_nonce_and_mark_pending id t.sender t.chain_id now db)
assign-Ensures id now db t inv row = elim (Option-cases (get_nonce_cursor t.sender t.chain_id db)) [
  | inl none_left ↦ rw (unassigned id t.sender t.chain_id now db none_left) tt
  | inr (r, cursor) ↦ rw (assigned id t.sender t.chain_id now db r cursor) (
    assigned-NonceInv id now db t r inv row cursor,
    fresh id now db t r inv row cursor,
    rw cursor,
    unfold get_nonce_cursor next' in next'_same id now db t r inv row cursor,
    find-update_tx id (set_nonce r.next_nonce now) (λ u. unfold set_nonce in refl) db.transactions t
        row,
  )
]

-- Whatever transaction a nonce is assigned to, the nonce is one that no transaction of that sender
-- on that chain holds, it is the cursor's, the cursor moves on by one, the transaction's row
-- carries the nonce, and the invariant is kept: ids stay unique, nonces stay unique for each
-- sender and chain, and the cursor stays above all of them.
pub assign_nonce_unique :
    (id now : ℕ) (db : Db) (t : Transaction) (out : ℕ × Db)
    → NonceInv db
    → find_tx id db.transactions ≡ some t
    → assign_nonce_and_mark_pending id t.sender t.chain_id now db ≡ ok out
    → Assigned id now db t out
assign_nonce_unique id now db t out inv row e =
    Ensures-ok (Assigned id now db t) _ (assign-Ensures id now db t inv row) e
