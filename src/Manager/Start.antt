-- ===== src/Manager/Start.antt =====
-- The cursors behind the start.
use evm_tx_sender.Prelude.{
  ℕ, ◌≤◌, Text, ◌≡◌, refl, sym, subst, false, Option, none, some, Result, ok, err, Ensures, List,
  [], ◌∷◌, ◌++◌, All, find?, update, Bool-cases, inl, inr, arith,
}
use evm_tx_sender.Domain.{Transaction, NonceCursor}
use evm_tx_sender.Repo.{
  Db, any, call, is_cursor_of, get_nonce_cursor, init_nonce_cursor, set_nonce_cursor,
  reset_pending_to_queued,
}
use evm_tx_sender.Repo.Nonces.Invariant.{NonceInv, holders, next_of}
use evm_tx_sender.Repo.Nonces.Cursor.{set_nonce_cursor-NonceInv, init_nonce_cursor-NonceInv}
use evm_tx_sender.Repo.Nonces.Kept.{reset-NonceInv}
use evm_tx_sender.Worker.{guarded}
use evm_tx_sender.Manager.{
  Pair, start_nonce, is_ahead, write_cursor, on_cursor, on_pending, init_nonce_for_sender, or_stop,
  init_pairs, init_nonces,
}

start_is_pending :
    (cursor : Option NonceCursor) (pending : ℕ) → start_nonce cursor pending ≡ pending
start_is_pending cursor pending = elim (Bool-cases (is_ahead cursor pending)) [
  | inl e ↦ rw e refl
  | inr e ↦ rw e refl
]

-- The nonces from a pending nonce on are free, and it is the one that the node gives for a pair.
abbrev pub PendingIsFree : List Transaction → Pair → Type 0
PendingIsFree rows pair =
    Ensures (λ n. (m : ℕ) → n ≤ m → holders pair.sender pair.chain_id m rows ≡ 0)
      pair.answers.pending_nonce_at

-- The tables keep the invariant and the transactions.
record Aligned (db db' : Db) : Type 0 where
  inv : NonceInv db'
  same_rows : db'.transactions ≡ db.transactions

write_cursor-Aligned :
    (cursor : Option NonceCursor) (s c n : ℕ) (db : Db)
    → NonceInv db
    → ((m : ℕ) → n ≤ m → holders s c m db.transactions ≡ 0)
    → Ensures (Aligned db) (write_cursor cursor s c n db)
unfolding init_nonce_cursor set_nonce_cursor
write_cursor-Aligned none s c n db inv free = record {
  inv = init_nonce_cursor-NonceInv s c n db inv free;
  same_rows = refl;
}
write_cursor-Aligned (some r) s c n db inv free = record {
  inv = set_nonce_cursor-NonceInv s c n db inv free;
  same_rows = refl;
}

call-Aligned :
    (link : Option Text) (db : Db) (r : Result Text Db)
    → NonceInv db
    → Ensures (Aligned db) r
    → Aligned db (call link db r).0
call-Aligned (some e) db r inv h = record { inv = inv; same_rows = refl }
call-Aligned none db (ok db') inv h = h
call-Aligned none db (err e) inv h = record { inv = inv; same_rows = refl }

init_nonce_for_sender-Aligned :
    (pair : Pair) (db : Db)
    → NonceInv db
    → PendingIsFree db.transactions pair
    → Aligned db (init_nonce_for_sender pair db).0
unfolding init_nonce_for_sender
init_nonce_for_sender-Aligned pair db inv free = pending pair.answers.pending_nonce_at free
  where
    stay : Aligned db db
    stay = record { inv = inv; same_rows = refl }

    cursor :
        (n : ℕ) (r : Result Text (Option NonceCursor))
        → ((m : ℕ) → n ≤ m → holders pair.sender pair.chain_id m db.transactions ≡ 0)
        → Aligned db (on_cursor pair n r db).0
    cursor n (err e) f = stay
    cursor n (ok c) f = call-Aligned pair.answers.write_link db _ inv (
        write_cursor-Aligned c pair.sender pair.chain_id (start_nonce c n) db inv
          (rw (start_is_pending c n) f))

    pending :
        (r : Result Text ℕ)
        → Ensures (λ n. (m : ℕ) → n ≤ m → holders pair.sender pair.chain_id m db.transactions ≡ 0) r
        → Aligned db (on_pending pair r db).0
    pending (err e) f = stay
    pending (ok n) f = cursor n _ f

init_pairs-NonceInv :
    (pairs : List Pair) (db : Db)
    → NonceInv db
    → All (PendingIsFree db.transactions) pairs
    → NonceInv (init_pairs pairs db).0
unfolding init_pairs
init_pairs-NonceInv [] db inv free = inv
init_pairs-NonceInv (pair ∷ pairs) db inv free =
    go (init_nonce_for_sender pair db) (init_nonce_for_sender-Aligned pair db inv free.0) (λ db' a.
      init_pairs-NonceInv pairs db' a.inv
        (subst (λ rows. All (PendingIsFree rows) pairs) (sym a.same_rows) free.1))
  where
    go :
        (out : Db × Option Text)
        → Aligned db out.0
        → ((db' : Db) → Aligned db db' → NonceInv (init_pairs pairs db').0)
        → NonceInv (or_stop out (init_pairs pairs)).0
    go (db', some e) a rest = a.inv
    go (db', none) a rest = rest db' a

-- A start keeps the invariant of the nonces, wherever it stops with an error, if each pending nonce
-- that a node gives is one from which on no transaction of the pair holds a nonce, once the
-- pending transactions have lost theirs.
pub init_nonces-NonceInv :
    (link : Option Text) (now : ℕ) (pairs : List Pair) (db : Db)
    → NonceInv db
    → All (PendingIsFree (reset_pending_to_queued now db).1.transactions) pairs
    → NonceInv (init_nonces link now pairs db).0
unfolding init_nonces
init_nonces-NonceInv (some e) now pairs db inv free = inv
init_nonces-NonceInv none now pairs db inv free =
    init_pairs-NonceInv pairs _ (reset-NonceInv now db inv) free

set_is_found :
    (s c n : ℕ) (rows : List NonceCursor) (r : NonceCursor)
    → find? (is_cursor_of s c) rows ≡ some r
    → next_of (
        find?
          (is_cursor_of s c)
          (update (is_cursor_of s c) (λ q. record q { next_nonce = n }) rows))
      ≡ n
set_is_found s c n [] r h = cc
set_is_found s c n (q ∷ rows) r h = ground (arith, set_is_found s c n rows r)

insert_is_found :
    (s c n : ℕ) (rows : List NonceCursor)
    → find? (is_cursor_of s c) rows ≡ none
    → (any (is_cursor_of s c) rows ≡ false)
      × (next_of (
            find?
              (is_cursor_of s c)
              (rows ++ record { sender = s; chain_id = c; next_nonce = n } ∷ []))
          ≡ n)
insert_is_found s c n [] h = (refl, ground arith)
insert_is_found s c n (q ∷ rows) h = ground (arith, insert_is_found s c n rows)

write_cursor-Set :
    (s c n : ℕ) (db : Db) (cursor : Option NonceCursor)
    → get_nonce_cursor s c db ≡ cursor
    → Ensures (λ db'. next_of (get_nonce_cursor s c db') ≡ n) (write_cursor cursor s c n db)
unfolding get_nonce_cursor init_nonce_cursor set_nonce_cursor
write_cursor-Set s c n db none h =
    let (unknown, found) = insert_is_found s c n db.nonce_cursors h in rw unknown found
write_cursor-Set s c n db (some r) h = set_is_found s c n db.nonce_cursors r h

-- `initNonceForSender` without an error leaves the cursor of the pair at the pending nonce that the
-- node gave, wherever the cursor stood before: also if it was ahead.
pub init_nonce_for_sender_aligns :
    (pair : Pair) (db : Db)
    → (init_nonce_for_sender pair db).1 ≡ none
    → (n : ℕ) × (pair.answers.pending_nonce_at ≡ ok n)
      × (next_of (get_nonce_cursor pair.sender pair.chain_id (init_nonce_for_sender pair db).0) ≡ n)
unfolding init_nonce_for_sender
init_nonce_for_sender_aligns pair db h = pending pair.answers.pending_nonce_at h
  where
    written :
        (n : ℕ) (link : Option Text) (r : Result Text Db)
        → Ensures (λ db'. next_of (get_nonce_cursor pair.sender pair.chain_id db') ≡ n) r
        → (call link db r).1 ≡ none
        → next_of (get_nonce_cursor pair.sender pair.chain_id (call link db r).0) ≡ n
    written n (some e) r k fine = cc
    written n none (err e) k fine = cc
    written n none (ok db') k fine = k

    cursor :
        (n : ℕ) (link : Option Text)
        → (on_cursor pair n
            (guarded link (ok (get_nonce_cursor pair.sender pair.chain_id db)))
            db).1
          ≡ none
        → next_of (
            get_nonce_cursor pair.sender pair.chain_id
              (on_cursor pair n
                (guarded link (ok (get_nonce_cursor pair.sender pair.chain_id db)))
                db).0)
          ≡ n
    cursor n (some e) fine = cc
    cursor n none fine =
        written n pair.answers.write_link _
          (rw (start_is_pending (get_nonce_cursor pair.sender pair.chain_id db) n)
            (write_cursor-Set pair.sender pair.chain_id n db _ refl))
          fine

    pending :
        (r : Result Text ℕ)
        → (on_pending pair r db).1 ≡ none
        → (n : ℕ) × (r ≡ ok n)
          × (next_of (get_nonce_cursor pair.sender pair.chain_id (on_pending pair r db).0) ≡ n)
    pending (err e) fine = cc
    pending (ok n) fine = (n, refl, cursor n pair.answers.read_link fine)
