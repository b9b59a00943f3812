-- ===== src/Repo/Nonces/Kept.antt =====
-- Every write of the program keeps the invariant of the nonces; setting a cursor does where the
-- nonces from the new one on are free.
use evm_tx_sender.Prelude.{
  ℕ, Text, ◌≤◌, ◌≡◌, refl, ap, ◌∙◌, false, Bool-cases, List, [], ◌∷◌, ◌++◌, none, inl, inr,
  Option-cases, Ensures, arith, count_if, count_if-append, update, select, ◌==◌, count-update_kept,
}
use evm_tx_sender.Domain.{Transaction, Actor}
use evm_tx_sender.Repo.{
  Db, any, clashes, oldest, is_queued_for, has_id, update_tx, get_nonce_cursor, is_pending,
  create_transaction, claim_next_queued, reset_pending_to_queued, set_claimed, set_queued,
  as_stored,
}
use evm_tx_sender.Repo.Lookup.{count-update_tx_kept}
use evm_tx_sender.Repo.Nonces.Invariant.{holds, holders, NonceInv}

-- What the nonces depend on in a row.
pub record KeepsNonce (f : Transaction → Transaction) : Type 0 where
  pub id_kept : (t : Transaction) → (f t).id ≡ t.id
  pub sender_kept : (t : Transaction) → (f t).sender ≡ t.sender
  pub chain_kept : (t : Transaction) → (f t).chain_id ≡ t.chain_id
  pub nonce_kept : (t : Transaction) → (f t).nonce ≡ t.nonce

holds_kept :
    (f : Transaction → Transaction)
    → KeepsNonce f
    → (s c n : ℕ) (t : Transaction) → holds s c n (f t) ≡ holds s c n t
holds_kept f k s c n t = rw (k.sender_kept t, k.chain_kept t, k.nonce_kept t)

-- The invariant reads the transactions and the cursors only.
pub update-NonceInv :
    (id : ℕ) (f : Transaction → Transaction) (db : Db)
    → KeepsNonce f
    → NonceInv db
    → NonceInv (record db { transactions = update_tx id f db.transactions })
unfolding get_nonce_cursor
update-NonceInv id f db k inv = record {
  ids_unique = λ j.
      rw
        (count-update_tx_kept id f (has_id j) db.transactions (λ t. ap (λ n. n == j) (k.id_kept t)))
        (inv.ids_unique j);
  nonces_unique = λ s c n.
      rw (count-update_tx_kept id f (holds s c n) db.transactions (holds_kept f k s c n))
        (inv.nonces_unique s c n);
  nonces_below = λ s c n h.
      count-update_tx_kept id f (holds s c n) db.transactions (holds_kept f k s c n)
      ∙ inv.nonces_below s c n h;
}

keeps_claimed : (a : Actor) (now : ℕ) → KeepsNonce (set_claimed a now)
unfolding set_claimed
keeps_claimed a now = record {
  id_kept = λ t. refl;
  sender_kept = λ t. refl;
  chain_kept = λ t. refl;
  nonce_kept = λ t. refl;
}

pub claim-NonceInv :
    (s c : ℕ) (a : Actor) (now : ℕ) (db : Db)
    → NonceInv db
    → NonceInv (claim_next_queued s c a now db).1
claim-NonceInv s c a now db inv =
    elim (Option-cases (oldest (select (is_queued_for s c) db.transactions))) [
      | inl e ↦ unfold claim_next_queued in rw (e, claim_next_queued) inv
      | inr (t, e) ↦
          unfold claim_next_queued in
          rw (e, claim_next_queued)
            (update-NonceInv t.id (set_claimed a now) db (keeps_claimed a now) inv)
    ]

count-reset :
    (now s c n : ℕ) (rows : List Transaction)
    → holders s c n (update is_pending (set_queued now) rows) ≤ holders s c n rows
unfolding set_queued
count-reset now s c n [] = omega arith
count-reset now s c n (t ∷ rows) = ground (arith, count-reset now s c n rows)

pub reset-NonceInv : (now : ℕ) (db : Db) → NonceInv db → NonceInv (reset_pending_to_queued now db).1
unfolding reset_pending_to_queued get_nonce_cursor
reset-NonceInv now db inv = record {
  ids_unique = λ j.
      rw
        (count-update_kept is_pending (set_queued now) (has_id j) db.transactions
          (λ t. unfold set_queued in refl))
        (inv.ids_unique j);
  nonces_unique =
      λ s c n. omega (arith, count-reset now s c n db.transactions, inv.nonces_unique s c n);
  nonces_below =
      λ s c n h. omega (arith, count-reset now s c n db.transactions, inv.nonces_below s c n h);
}

-- A new row has a new id and no nonce.
absent_id :
    (tx : Transaction) (rows : List Transaction)
    → any (clashes tx) rows ≡ false
    → count_if (has_id tx.id) rows ≡ 0
absent_id tx [] h = refl
absent_id tx (t ∷ rows) h = ground (arith, absent_id tx rows)

new_row-ids :
    (j : ℕ) (tx : Transaction) (rows : List Transaction)
    → count_if (has_id tx.id) rows ≡ 0
    → count_if (has_id j) rows ≤ 1
    → count_if (has_id j) (rows ++ tx ∷ []) ≤ 1
new_row-ids j tx rows absent one = elim (Bool-cases (tx.id == j)) [
  | inl e ↦
      let same : tx.id ≡ j = ground arith in
      let none_yet : count_if (has_id j) rows ≡ 0 = rw (← same) absent in
      rw (count_if-append (has_id j) rows (tx ∷ []), e, none_yet) (omega arith)
  | inr e ↦ rw (count_if-append (has_id j) rows (tx ∷ []), e) (omega arith)
]

new_row-holders :
    (s c n : ℕ) (tx : Transaction) (rows : List Transaction)
    → tx.nonce ≡ none
    → holders s c n (rows ++ tx ∷ []) ≡ holders s c n rows
new_row-holders s c n tx rows free =
    count_if-append (holds s c n) rows (tx ∷ []) ∙ rw none_held (omega arith)
  where
    none_held : holds s c n tx ≡ false
    none_held = ground arith

pub create-NonceInv :
    (normal_json : Text → Text) (tx : Transaction) (db : Db)
    → NonceInv db
    → Ensures NonceInv (create_transaction normal_json tx db)
unfolding create_transaction get_nonce_cursor as_stored
create-NonceInv normal_json tx db inv = elim (Bool-cases (any (clashes tx) db.transactions)) [
  | inl e ↦ rw e tt
  | inr e ↦ rw e (record {
    ids_unique = λ j.
        new_row-ids j (as_stored normal_json tx) db.transactions (absent_id tx db.transactions e)
          (inv.ids_unique j);
    nonces_unique = λ s c n.
        rw (new_row-holders s c n (as_stored normal_json tx) db.transactions refl)
          (inv.nonces_unique s c n);
    nonces_below = λ s c n h.
        new_row-holders s c n (as_stored normal_json tx) db.transactions refl
        ∙ inv.nonces_below s c n h;
  })
]
