-- ===== src/Receipts/Attempts.antt =====
-- What a confirmation leaves of the attempts.
use evm_tx_sender.Prelude.{
  ℕ, ◌≤◌, ◌+◌, Text, ◌≡◌, ◌≢◌, ◌⊎◌, inl, inr, refl, sym, ap, ◌∙◌, Bool, true, false, Option, none,
  some, List, [], ◌∷◌, In, select-In, count-In, count-select, count_if, select, update, leb, ◌==◌,
  ==_iff, if◌then◌else◌, Bool-cases, arith,
}
use evm_tx_sender.Domain.{
  TxAttempt, AttemptStatus, attempt_broadcast, attempt_confirmed, attempt_replaced, attempt_dropped,
}
use evm_tx_sender.Repo.{
  insert_by, sort_by, mark_attempt_status, set_attempt_status, get_attempts_by_transaction_id,
}
use evm_tx_sender.Worker.{World, run}
use evm_tx_sender.Receipts.{
  is_hash, settle_one, settle_attempts, settle_read, mark_attempt_confirmed,
}
use evm_tx_sender.Receipts.Moves.{hash_same, hash_other}

module _ {A : Type 0} (key : A → ℕ) where
  insert_by-In : (a x : A) (xs : List A) → (x ≡ a) ⊎ In a xs → In a (insert_by key x xs)
  unfolding insert_by
  insert_by-In a x [] i = i
  insert_by-In a x (y ∷ ys) i = elim (Bool-cases (leb (key x) (key y))) [
    | inl e ↦ rw e i
    | inr e ↦ rw e (behind i (insert_by-In a x ys))
  ]
    where
      behind :
          (x ≡ a) ⊎ ((y ≡ a) ⊎ In a ys)
          → ((x ≡ a) ⊎ In a ys → In a (insert_by key x ys))
          → (y ≡ a) ⊎ In a (insert_by key x ys)
      behind (inl k) rest = inr (rest (inl k))
      behind (inr (inl k)) rest = inl k
      behind (inr (inr k)) rest = inr (rest (inr k))

  sort_by-In : (a : A) (xs : List A) → In a xs → In a (sort_by key xs)
  unfolding sort_by
  sort_by-In a [] i = absurd i
  sort_by-In a (x ∷ xs) (inl e) = insert_by-In a x _ (inl e)
  sort_by-In a (x ∷ xs) (inr i) = insert_by-In a x _ (inr (sort_by-In a xs i))

  count-insert_by :
      (p : A → Bool) (x : A) (xs : List A)
      → count_if p (insert_by key x xs) ≡ (if p x then 1 else 0) + count_if p xs
  unfolding insert_by
  count-insert_by p x [] = refl
  count-insert_by p x (y ∷ ys) = elim (Bool-cases (leb (key x) (key y))) [
    | inl e ↦ rw e refl
    | inr e ↦ rw e (omega (arith, count-insert_by p x ys))
  ]

  count-sort_by : (p : A → Bool) (xs : List A) → count_if p (sort_by key xs) ≡ count_if p xs
  unfolding sort_by
  count-sort_by p [] = refl
  count-sort_by p (x ∷ xs) = count-insert_by p x _ ∙ omega (arith, count-sort_by p xs)

abbrev pub has_attempt_id : ℕ → TxAttempt → Bool
has_attempt_id id a = a.id == id

-- The status that a confirmation by a hash leaves an attempt of the transaction in.
pub data SettlesTo (tx_hash : Option ℕ) (a : TxAttempt) : AttemptStatus → Type 0 where
  was_mined : tx_hash ≡ some a.tx_hash → SettlesTo tx_hash a attempt_confirmed
  was_replaced :
      tx_hash ≢ some a.tx_hash → a.status ≡ attempt_broadcast → SettlesTo tx_hash a attempt_replaced
  stays : tx_hash ≢ some a.tx_hash → a.status ≢ attempt_broadcast → SettlesTo tx_hash a a.status

-- The row with the attempt's id, in that status.
abbrev pub IsSettled : Option ℕ → TxAttempt → List TxAttempt → Type 0
IsSettled tx_hash a rows =
    (s : AttemptStatus) × SettlesTo tx_hash a s × In (record a { status = s }) rows

In-update :
    (id : ℕ) (s : AttemptStatus) (a : TxAttempt) (rows : List TxAttempt)
    → In a rows
    → a.id ≡ id
    → In (record a { status = s }) (update (has_attempt_id id) (set_attempt_status s) rows)
unfolding set_attempt_status
In-update id s a [] i e = absurd i
In-update id s a (r ∷ rows) (inr i) e = inr (In-update id s a rows i e)
In-update id s a (r ∷ rows) (inl same) e =
    let test : (r.id == id) ≡ true = (==_iff r.id id).1 (ap (λ t. t.id) same ∙ e) in
    inl (rw test (ap (λ (t : TxAttempt). record t { status = s }) same))

In-update_apart :
    (id : ℕ) (s : AttemptStatus) (a : TxAttempt) (rows : List TxAttempt)
    → In a rows
    → a.id ≢ id
    → In a (update (has_attempt_id id) (set_attempt_status s) rows)
In-update_apart id s a [] i ne = absurd i
In-update_apart id s a (r ∷ rows) (inr i) ne = inr (In-update_apart id s a rows i ne)
In-update_apart id s a (r ∷ rows) (inl same) ne = elim (Bool-cases (r.id == id)) [
  | inl e ↦ absurd (ne (ap (λ t. t.id) (sym same) ∙ (==_iff r.id id).0 e))
  | inr e ↦ inl (rw e same)
]

-- The work on one attempt, if its update does not fail.
settle_one-IsSettled :
    (tx_hash : Option ℕ) (a : TxAttempt) (w : World)
    → In a w.db.attempts
    → IsSettled tx_hash a (settle_one none (is_hash tx_hash a.tx_hash) a.status a.id w).db.attempts
unfolding run mark_attempt_status
settle_one-IsSettled tx_hash a w i = go (is_hash tx_hash a.tx_hash) refl a.status refl
  where
    kept : (st : AttemptStatus) → a.status ≡ st → In (record a { status = st }) w.db.attempts
    kept st e = rw (← e) i

    go :
        (same : Bool)
        → is_hash tx_hash a.tx_hash ≡ same
        → (st : AttemptStatus) → a.status ≡ st
        → IsSettled tx_hash a (settle_one none same st a.id w).db.attempts
    go true e st k =
        (attempt_confirmed, was_mined (hash_same tx_hash a.tx_hash e), In-update a.id _ a _ i refl)
    go false e attempt_broadcast k = (
      attempt_replaced,
      was_replaced (hash_other tx_hash a.tx_hash e) k,
      In-update a.id _ a _ i refl,
    )
    go false e attempt_confirmed k =
        (a.status, stays (hash_other tx_hash a.tx_hash e) (λ h. let bad = sym k ∙ h in cc), i)
    go false e attempt_replaced k =
        (a.status, stays (hash_other tx_hash a.tx_hash e) (λ h. let bad = sym k ∙ h in cc), i)
    go false e attempt_dropped k =
        (a.status, stays (hash_other tx_hash a.tx_hash e) (λ h. let bad = sym k ∙ h in cc), i)

-- The work on another attempt leaves it alone.
settle_one_apart :
    (same : Bool) (st : AttemptStatus) (id : ℕ) (a : TxAttempt) (w : World)
    → In a w.db.attempts
    → a.id ≢ id
    → In a (settle_one none same st id w).db.attempts
unfolding run mark_attempt_status
settle_one_apart true st id a w i ne = In-update_apart id _ a _ i ne
settle_one_apart false attempt_broadcast id a w i ne = In-update_apart id _ a _ i ne
settle_one_apart false attempt_confirmed id a w i ne = i
settle_one_apart false attempt_replaced id a w i ne = i
settle_one_apart false attempt_dropped id a w i ne = i

settle_apart :
    (link : ℕ → Option Text) (tx_hash : Option ℕ) (attempts : List TxAttempt) (a : TxAttempt)
    (w : World)
    → ((id : ℕ) → link id ≡ none)
    → count_if (has_attempt_id a.id) attempts ≡ 0
    → In a w.db.attempts
    → In a (settle_attempts link tx_hash attempts w).db.attempts
unfolding settle_attempts
settle_apart link tx_hash [] a w calm absent i = i
settle_apart link tx_hash (c ∷ attempts) a w calm absent i =
    settle_apart link tx_hash attempts a _ calm (ground arith) (
      rw (calm c.id)
        (settle_one_apart (is_hash tx_hash c.tx_hash) c.status c.id a w i (λ e. ground arith)))

settle-IsSettled :
    (link : ℕ → Option Text) (tx_hash : Option ℕ) (attempts : List TxAttempt) (a : TxAttempt)
    (w : World)
    → ((id : ℕ) → link id ≡ none)
    → In a attempts
    → count_if (has_attempt_id a.id) attempts ≤ 1
    → In a w.db.attempts
    → IsSettled tx_hash a (settle_attempts link tx_hash attempts w).db.attempts
unfolding settle_attempts
settle-IsSettled link tx_hash [] a w calm listed one i = absurd listed
settle-IsSettled link tx_hash (c ∷ attempts) a w calm listed one i =
    elim (Bool-cases (c.id == a.id)) [
      | inl e ↦ mine listed e
      | inr e ↦
          settle-IsSettled link tx_hash attempts a _ calm (others listed e)
            (omega (arith, rw e at one))
            (rw (calm c.id) (
              settle_one_apart (is_hash tx_hash c.tx_hash) c.status c.id a w i (λ k. ground arith)))
    ]
  where
    others : (c ≡ a) ⊎ In a attempts → (c.id == a.id) ≡ false → In a attempts
    others (inr j) e = j
    others (inl same) e = absurd (let k = ap (λ t. t.id) same in ground arith)

    settled :
        (w' : World)
        → count_if (has_attempt_id a.id) attempts ≡ 0
        → IsSettled tx_hash a w'.db.attempts
        → IsSettled tx_hash a (settle_attempts link tx_hash attempts w').db.attempts
    settled w' absent (s, to, j) =
        (s, to, settle_apart link tx_hash attempts (record a { status = s }) w' calm absent j)

    mine :
        (c ≡ a) ⊎ In a attempts
        → (c.id == a.id) ≡ true
        → IsSettled tx_hash a
            (settle_attempts link tx_hash attempts
              (settle_one (link c.id) (is_hash tx_hash c.tx_hash) c.status c.id w)).db.attempts
    mine (inr j) e = absurd (
        let more = count-In (has_attempt_id a.id) a attempts j ((==_iff a.id a.id).1 refl) in
        ground arith)
    mine (inl same) e = rw same (
        settled _ (omega (arith, rw e at one))
          (rw (calm a.id) (settle_one-IsSettled tx_hash a w i)))

-- If no database call fails and the ids of the attempts are unique, a confirmation leaves each
-- attempt of its transaction, else unchanged, in the status that it should have: confirmed if it has
-- the hash, replaced if it has another and counted as broadcast, and as it was if not.
pub mark_attempt_confirmed_settles :
    (link : ℕ → Option Text) (tx_id : ℕ) (tx_hash : Option ℕ) (w : World) (a : TxAttempt)
    → ((id : ℕ) → link id ≡ none)
    → ((id : ℕ) → count_if (has_attempt_id id) w.db.attempts ≤ 1)
    → In a w.db.attempts
    → a.transaction_id ≡ tx_id
    → IsSettled tx_hash a (mark_attempt_confirmed none link tx_id tx_hash w).db.attempts
unfolding mark_attempt_confirmed settle_read get_attempts_by_transaction_id
mark_attempt_confirmed_settles link tx_id tx_hash w a calm unique i mine =
    let ours = select (λ (b : TxAttempt). b.transaction_id == tx_id) w.db.attempts in
    settle-IsSettled link tx_hash (get_attempts_by_transaction_id tx_id w.db) a w calm
      (sort_by-In (λ b. b.attempt_number) a ours
        (select-In (λ b. b.transaction_id == tx_id) a w.db.attempts i (ground arith)))
      (omega (
        arith,
        count-sort_by (λ (b : TxAttempt). b.attempt_number) (has_attempt_id a.id) ours,
        count-select (has_attempt_id a.id) (λ (b : TxAttempt). b.transaction_id == tx_id)
            w.db.attempts,
        unique a.id,
      ))
      i
