-- ===== src/Stuck/Runs.antt =====
-- `check` as a run of steps over the transactions that it read.
use evm_tx_sender.Prelude.{
  ℕ, ◌+◌, ◌≤◌, ◌<◌, Text, ◌≡◌, refl, ◌-◌, Option, none, some, List, [], ◌∷◌, ◌⊎◌, inl, inr, length,
  select, count_if, count_if-append, length-select, All, In, ◌==◌, arith,
}
use evm_tx_sender.Domain.{Transaction, TxAttempt}
use evm_tx_sender.Repo.{insert_by, sort_by, get_attempts_by_transaction_id, get_stuck_transactions}
use evm_tx_sender.Worker.{World, Env}
use evm_tx_sender.Stuck.{StuckDetector, check_one, check_all, check}
use evm_tx_sender.Stuck.Steps.{Step, idle, gave_up, replaced, resubmitted, Survives, handle-Step}

module _ {A : Type 0} (key : A → ℕ) where
  length-insert_by : (x : A) (xs : List A) → length (insert_by key x xs) ≡ length xs + 1
  unfolding insert_by
  length-insert_by x [] = refl
  length-insert_by x (y ∷ ys) = ground (arith, length-insert_by x ys)

  length-sort_by : (xs : List A) → length (sort_by key xs) ≡ length xs
  unfolding sort_by
  length-sort_by [] = refl
  length-sort_by (x ∷ xs) = omega (arith, length-insert_by x (sort_by key xs), length-sort_by xs)

-- How many attempts are stored for a transaction.
abbrev pub attempts_of : ℕ → World → ℕ
attempts_of id w = count_if (λ a. a.transaction_id == id) w.db.attempts

pub attempts_read :
    (id : ℕ) (w : World) → length (get_attempts_by_transaction_id id w.db) ≡ attempts_of id w
unfolding get_attempts_by_transaction_id
attempts_read id w = omega (
  arith,
  length-sort_by (λ a. a.attempt_number) (select (λ a. a.transaction_id == id) w.db.attempts),
  length-select (λ a. a.transaction_id == id) w.db.attempts,
)

-- A transaction with a nonce has an attempt.
abbrev pub IsBacked : World → Transaction → Type 0
IsBacked w tx = (tx.nonce ≡ none) ⊎ (1 ≤ attempts_of tx.id w)

-- The steps of one `check`, in order; `txs` is what it read at the start.
pub data Steps (sd : StuckDetector) (txs : List Transaction) (w : World) : World → Type 0 where
  done : Steps sd txs w w
  followed :
      {w' : World}
      → Steps sd txs w w'
      → (tx : Transaction) (w'' : World) → In tx txs
      → Step sd tx (get_attempts_by_transaction_id tx.id w'.db) w' w''
      → Steps sd txs w w''

pub check_one-Step :
    (sd : StuckDetector) (env : Env) (tx : Transaction) (w : World)
    → IsBacked w tx
    → Survives (Step sd tx (get_attempts_by_transaction_id tx.id w.db) w) (check_one sd env tx w)
unfolding check_one
check_one-Step sd env tx w backed =
    handle-Step sd tx (get_attempts_by_transaction_id tx.id w.db) w env (go backed) (env.link 0)
  where
    go :
        IsBacked w tx → (tx.nonce ≡ none) ⊎ (0 < length (get_attempts_by_transaction_id tx.id w.db))
    go (inl e) = inl e
    go (inr n) = inr (omega (arith, attempts_read tx.id w))

-- A step takes no attempt away.
pub Step-grows :
    (sd : StuckDetector) (tx : Transaction) (attempts : List TxAttempt) (w w' : World)
    → Step sd tx attempts w w'
    → (id : ℕ) → attempts_of id w ≤ attempts_of id w'
Step-grows sd tx attempts w w' (idle same) id = rw same.same_attempts (omega arith)
Step-grows sd tx attempts w w' (gave_up now many rows old sent) id = rw old (omega arith)
Step-grows sd tx attempts w w' (replaced a r rows new sent) id =
    rw (new, count_if-append (λ b. b.transaction_id == id) w.db.attempts (a ∷ [])) (omega arith)
Step-grows sd tx attempts w w' (resubmitted a now r rows new sent) id =
    rw (new, count_if-append (λ b. b.transaction_id == id) w.db.attempts (a ∷ [])) (omega arith)

IsBacked-later :
    (w w' : World) (txs : List Transaction)
    → ((id : ℕ) → attempts_of id w ≤ attempts_of id w')
    → All (IsBacked w) txs
    → All (IsBacked w') txs
IsBacked-later w w' [] grows h = tt
IsBacked-later w w' (tx ∷ txs) grows h = (go h.0, IsBacked-later w w' txs grows h.1)
  where
    go : IsBacked w tx → IsBacked w' tx
    go (inl e) = inl e
    go (inr n) = inr (omega (arith, grows tx.id))

check_all-Steps :
    (sd : StuckDetector) (envs : ℕ → Env) (all txs : List Transaction) (base w : World)
    → ((tx : Transaction) → In tx txs → In tx all)
    → All (IsBacked w) txs
    → Steps sd all base w
    → Survives (Steps sd all base) (check_all sd envs txs w)
unfolding check_all
check_all-Steps sd envs all [] base w within h run = run
check_all-Steps sd envs all (tx ∷ txs) base w within h run =
    go (check_one sd (envs tx.id) tx w) (check_one-Step sd (envs tx.id) tx w h.0)
      (λ w' later longer.
        check_all-Steps sd envs all txs base w' (λ t i. within t (inr i)) later longer)
  where
    go :
        (o : Option World)
        → Survives (Step sd tx (get_attempts_by_transaction_id tx.id w.db) w) o
        → ((w' : World)
            → All (IsBacked w') txs
            → Steps sd all base w'
            → Survives (Steps sd all base) (check_all sd envs txs w'))
        → Survives (Steps sd all base) (elim o [ none ↦ none | some w' ↦ check_all sd envs txs w' ])
    go none s rest = s
    go (some w') s rest =
        rest w' (IsBacked-later w w' txs (Step-grows sd tx _ w w' s) h.1)
          (followed run tx w' (within tx (inl refl)) s)

-- `check` refines the step relation, and does not panic: if each transaction that it reads has no
-- nonce or at least one attempt, then, whatever the database, the node and the signer answer, it
-- ends, in a state that is reached by steps over transactions that it read: a step leaves all but
-- the log, or marks a transaction with more than five attempts failed, or stores one replacement
-- with the next number, the same nonce and bumped fees behind at most five attempts, hands it to
-- a node, and leaves the row or marks it submitted with the new hash.
pub check-Steps :
    (sd : StuckDetector) (link : Option Text) (envs : ℕ → Env) (now : ℕ) (w : World)
    → All (IsBacked w) (get_stuck_transactions sd.chain.chain_id (now - sd.stuck_threshold) w.db)
    → Survives
        (Steps sd (get_stuck_transactions sd.chain.chain_id (now - sd.stuck_threshold) w.db) w)
        (check sd link envs now w)
unfolding check
check-Steps sd (some e) envs now w h = done
check-Steps sd none envs now w h = check_all-Steps sd envs _ _ w w (λ t i. i) h done
