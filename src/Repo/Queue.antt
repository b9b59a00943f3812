-- ===== src/Repo/Queue.antt =====
-- `ClaimNextQueued` is a queue: it takes the oldest transaction that waits for the pair.
use evm_tx_sender.Prelude.{
  ℕ, suc, ◌≤◌, ◌≡◌, refl, true, false, List, [], ◌∷◌, Option, none, some, Option-cases, inl, inr,
  arith, All, In, In-select, find-In, length-select, select, count_if, ==_refl, some_inj,
}
use evm_tx_sender.Domain.{Transaction, TxStatus, Actor}
use evm_tx_sender.Repo.{
  Db, has_id, find_tx, update_tx, oldest, earlier, is_queued_for, set_claimed, claim_next_queued,
  count_queued_transactions,
}
use evm_tx_sender.Repo.Lookup.{find-update_tx, count-update_tx}

oldest-In : (rows : List Transaction) (t : Transaction) → oldest rows ≡ some t → In t rows
unfolding oldest
oldest-In [] t h = cc
oldest-In (r ∷ rows) t h = ground (arith, oldest-In rows t)

abbrev NoEarlier : Transaction → List Transaction → Type 0
NoEarlier t = All (λ u. t.created_at ≤ u.created_at)

weaken_earlier :
    (t u : Transaction) (rows : List Transaction)
    → t.created_at ≤ u.created_at
    → NoEarlier u rows
    → NoEarlier t rows
weaken_earlier t u [] h k = tt
weaken_earlier t u (r ∷ rows) h k = (omega arith, weaken_earlier t u rows h k.1)

oldest-none : (rows : List Transaction) → oldest rows ≡ none → rows ≡ []
unfolding oldest
oldest-none [] h = refl
oldest-none (r ∷ rows) h = cc

earlier-le :
    (r u t : Transaction)
    → earlier r (some u) ≡ t
    → (t.created_at ≤ r.created_at) × (t.created_at ≤ u.created_at)
earlier-le r u t h = ground arith

oldest-NoEarlier :
    (rows : List Transaction) (t : Transaction) → oldest rows ≡ some t → NoEarlier t rows
unfolding oldest
oldest-NoEarlier [] t h = cc
oldest-NoEarlier (r ∷ rows) t h = elim (Option-cases (oldest rows)) [
  | inl e ↦
      let alone : some (earlier r none) ≡ some t = rw e at h in
      let same : r ≡ t = ground arith in rw (oldest-none rows e, same) (omega arith)
  | inr (u, e) ↦
      let pick : some (earlier r (some u)) ≡ some t = rw e at h in
      let (before_r, before_u) = earlier-le r u t (some_inj _ _ pick) in
      (before_r, weaken_earlier t u rows before_u (oldest-NoEarlier rows u e))
]

-- The queue of a pair.
abbrev pub queue : ℕ → ℕ → Db → List Transaction
queue s c db = select (is_queued_for s c) db.transactions

-- What a claim did: the row `t` that it took, and the row `t'` that it returned.
pub record Claimed (s c now : ℕ) (a : Actor) (db db' : Db) (t' : Transaction) : Type 0 where
  pub taken : Transaction
  pub was_there : find_tx taken.id db.transactions ≡ some taken
  pub was_queued : is_queued_for s c taken ≡ true
  pub no_earlier : NoEarlier taken (queue s c db)
  pub returned : t' ≡ set_claimed a now taken
  pub is_pending_now : t'.status ≡ TxStatus.pending
  pub is_stored : find_tx taken.id db'.transactions ≡ some t'
  pub queue_shrinks : count_queued_transactions s c db ≡ suc (count_queued_transactions s c db')

nothing_claimed :
    (s c now : ℕ) (a : Actor) (db : Db)
    → oldest (queue s c db) ≡ none
    → claim_next_queued s c a now db ≡ (none, db)
unfolding claim_next_queued
nothing_claimed s c now a db e = rw (e, claim_next_queued)

module _ (s c now : ℕ) (a : Actor) (db : Db)
    (ids_unique : (id : ℕ) → count_if (has_id id) db.transactions ≤ 1) (t : Transaction)
    (pick : oldest (queue s c db) ≡ some t) where
  in_queue : In t db.transactions × (is_queued_for s c t ≡ true)
  in_queue = In-select (is_queued_for s c) t db.transactions (oldest-In (queue s c db) t pick)

  found : find_tx t.id db.transactions ≡ some t
  unfolding find_tx
  found = find-In (has_id t.id) t db.transactions in_queue.0 (==_refl t.id) (ids_unique t.id)

  abbrev db' : Db
  db' = record db { transactions = update_tx t.id (set_claimed a now) db.transactions }

  claimed_is_gone : is_queued_for s c (set_claimed a now t) ≡ false
  unfolding set_claimed
  claimed_is_gone = refl

  shrinks : count_queued_transactions s c db ≡ suc (count_queued_transactions s c db')
  unfolding count_queued_transactions
  shrinks =
      let moved =
        count-update_tx t.id (set_claimed a now) (is_queued_for s c) db.transactions t
          (ids_unique t.id) found in
      let counted = rw (in_queue.1, claimed_is_gone) at moved in
      rw (length-select, length-select) (omega (arith, counted))

  claims : claim_next_queued s c a now db ≡ (some (set_claimed a now t), db')
  unfolding claim_next_queued
  claims = rw (pick, claim_next_queued)

  claimed : Claimed s c now a db db' (set_claimed a now t)
  claimed = record {
    taken = t;
    was_there = found;
    was_queued = in_queue.1;
    no_earlier = oldest-NoEarlier (queue s c db) t pick;
    returned = refl;
    is_pending_now = unfold set_claimed in refl;
    is_stored =
        find-update_tx t.id (set_claimed a now) (λ u. unfold set_claimed in refl) db.transactions t
          found;
    queue_shrinks = shrinks;
  }

-- What a claim returns, with the tables behind it.
abbrev pub ClaimOutcome : ℕ → ℕ → ℕ → Actor → Db → Option Transaction × Db → Type 0
ClaimOutcome s c now a db (none, db') = (count_queued_transactions s c db ≡ 0) × (db' ≡ db)
ClaimOutcome s c now a db (some t', db') = Claimed s c now a db db' t'

-- A claim on tables with unique ids takes the oldest queued transaction of the pair: it was
-- queued for the pair, none that was is older, its row becomes pending and is what the claim
-- returns, and the queue is shorter by one. It returns nothing only if the queue is empty, and
-- then changes nothing.
pub claim_takes_oldest :
    (s c now : ℕ) (a : Actor) (db : Db)
    → ((id : ℕ) → count_if (has_id id) db.transactions ≤ 1)
    → ClaimOutcome s c now a db (claim_next_queued s c a now db)
claim_takes_oldest s c now a db ids_unique = elim (Option-cases (oldest (queue s c db))) [
  | inl e ↦
      rw (nothing_claimed s c now a db e)
        (unfold count_queued_transactions in rw (oldest-none (queue s c db) e), refl)
  | inr (t, e) ↦ rw (claims s c now a db ids_unique t e) (claimed s c now a db ids_unique t e)
]
