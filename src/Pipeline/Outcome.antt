-- ===== src/Pipeline/Outcome.antt =====
-- How a row can stand behind `processTx`, and what the first calls make of it.
use evm_tx_sender.Prelude.{
  ℕ, zero, suc, ◌+◌, ◌<◌, ◌≤◌, Text, ◌≡◌, ◌⊎◌, inl, inr, refl, ◌∙◌, ap, true, Option, Option-cases,
  Bool, find?, Bool-cases, none, some, ok, err, List, [], ◌∷◌, ◌++◌, ◌==◌, replicate, In, arith,
}
use evm_tx_sender.Domain.{
  Transaction, TxStatus, TxStateLog, TxAttempt, GasParams, ErrorCode, Actor, internal_error,
  estimation_reverted, signing_failed, broadcast_failed,
}
use evm_tx_sender.Gas.{GasReplies, estimate}
use evm_tx_sender.Repo.{
  Db, any, has_id, attempt_clashes, get_nonce_cursor, find_tx, set_failed, mark_failed,
  create_attempt,
}
use evm_tx_sender.Repo.Lookup.{find-update_tx}
use evm_tx_sender.Worker.{World, Env, run, log_transition, build_and_sign}
use evm_tx_sender.Worker.Frame.{
  SameButLog, log-SameButLog, Others, Others-update, Others-same, has_attempt,
}
use evm_tx_sender.Pipeline.{Pipeline, fail_tx, broadcast}

module _ (p : Pipeline) (env : Env) (tx : Transaction) (replies : GasReplies) where
  -- Why `processTx` gives a transaction up, by the error code: there was no nonce to assign, the fees
  -- could not be estimated, the signer refused, or every try of the broadcast failed. `base` is the
  -- state before.
  pub data GivesUp (base : World) : ErrorCode → Type 0 where
    no_nonce :
        ((e : Text) × (env.link 1 ≡ some e))
          ⊎ (get_nonce_cursor p.sender p.chain.chain_id base.db ≡ none)
        → GivesUp base internal_error
    no_estimate :
        (e : Text) → estimate replies p.chain tx.priority ≡ err e → GivesUp base estimation_reverted
    no_signature :
        (nonce : ℕ) (gas : GasParams) (e : Text)
        → estimate replies p.chain tx.priority ≡ ok gas
        → build_and_sign p.signer p.sender p.chain.chain_id tx nonce gas ≡ err e
        → GivesUp base signing_failed
    no_broadcast :
        ((i : ℕ) → i < 5 → (e : Text) × (env.node i ≡ some e)) → GivesUp base broadcast_failed

  -- Why the work can stop half way: the call that stores the attempt, or the one that writes the
  -- final status, failed; or the tables refuse the attempt, since an attempt with the new id, or a
  -- first attempt of the transaction, was stored before.
  pub data Interrupted (base : World) : Type 0 where
    lost_call : (i : ℕ) (e : Text) → 2 ≤ i → i ≤ 3 → env.link i ≡ some e → Interrupted base
    refused_attempt :
        (a : TxAttempt)
        → a.id ≡ env.new_id
        → a.transaction_id ≡ tx.id
        → a.attempt_number ≡ 1
        → any (attempt_clashes a) base.db.attempts ≡ true
        → Interrupted base

  -- How the row of the transaction can stand behind `processTx`.
  pub data Fate (base w' : World) (row : Transaction) : Type 0 where
    left_pending : row.status ≡ TxStatus.pending → Interrupted base → Fate base w' row
    gave_up :
        (code : ErrorCode)
        → row.status ≡ TxStatus.failed
        → row.error_code ≡ some code
        → GivesUp base code
        → Fate base w' row
    handed_over :
        (tx_hash nonce i : ℕ)
        → row.status ≡ TxStatus.submitted
        → row.final_tx_hash ≡ some tx_hash
        → row.nonce ≡ some nonce
        → has_attempt tx.id tx_hash w'.db ≡ true
        → In tx_hash w'.sent
        → i < 5
        → env.node i ≡ none
        → Fate base w' row

  pub record Settled (w w' : World) : Type 0 where
    pub others : Others tx.id w w'
    pub row : Transaction
    pub stored : find_tx tx.id w'.db.transactions ≡ some row
    pub fate : Fate w w' row

-- The row of a transaction on its way.
pub record Underway (tx_id : ℕ) (base w : World) (row : Transaction) : Type 0 where
  pub others : Others tx_id base w
  pub stored : find_tx tx_id w.db.transactions ≡ some row
  pub is_pending : row.status ≡ TxStatus.pending

find-any :
    (p : Transaction → Bool) (row : Transaction) (rows : List Transaction)
    → find? p rows ≡ some row
    → any p rows ≡ true
find-any p row [] h = absurd cc
find-any p row (t ∷ rows) h = elim (Bool-cases (p t)) [
  | inl e ↦ rw e refl
  | inr e ↦ rw e (find-any p row rows (rw e at h))
]

-- For a transaction that is stored, an attempt is refused only where it clashes with another.
pub refused-clashes :
    (a : TxAttempt) (row : Transaction) (e : Text) (db : Db)
    → find_tx a.transaction_id db.transactions ≡ some row
    → create_attempt a db ≡ err e
    → any (attempt_clashes a) db.attempts ≡ true
unfolding create_attempt find_tx
refused-clashes a row e db there h = elim (Bool-cases (any (attempt_clashes a) db.attempts)) [
  | inl k ↦ k
  | inr k ↦
      let known = find-any (has_id a.transaction_id) row db.transactions there in
      absurd (let bad = rw (k, known) at h in cc)
]

module _ (p : Pipeline) (env : Env) (tx : Transaction) (replies : GasReplies) (base : World) where
  Fate-SameButLog :
      (w w' : World) (row : Transaction)
      → SameButLog w w'
      → Fate p env tx replies base w row
      → Fate p env tx replies base w' row
  Fate-SameButLog w w' row same (left_pending h x) = left_pending h x
  Fate-SameButLog w w' row same (gave_up code h k c) = gave_up code h k c
  Fate-SameButLog w w' row same (handed_over tx_hash nonce j s h n a i b l) =
      handed_over tx_hash nonce j s h n (rw same.same_attempts a) (rw same.same_sent i) b l

  pub Settled-log :
      (w : World) (link : Option Text) (entry : TxStateLog)
      → Settled p env tx replies base w
      → Settled p env tx replies base (log_transition link entry w)
  Settled-log w link entry s =
      let same = log-SameButLog link entry w in
      record {
        others =
            Others-same tx.id base w (log_transition link entry w) s.others same.same_transactions;
        row = s.row;
        stored = ap (find_tx tx.id) same.same_transactions ∙ s.stored;
        fate = Fate-SameButLog w (log_transition link entry w) s.row same s.fate;
      }

  -- A return with the row as it is.
  pub stop-Settled :
      (w : World) (row : Transaction)
      → Underway tx.id base w row
      → Interrupted p env tx replies base
      → Settled p env tx replies base w
  stop-Settled w row u x = record {
    others = u.others;
    row = row;
    stored = u.stored;
    fate = left_pending u.is_pending x;
  }

  fail_row-Settled :
      (link : Option Text) (i now : ℕ) (code : ErrorCode) (reason : Text) (w : World)
      (row : Transaction)
      → 2 ≤ i
      → i ≤ 3
      → GivesUp p env tx replies base code
      → Underway tx.id base w row
      → env.link i ≡ link
      → Settled p env tx replies base (run link (mark_failed tx.id code reason now) w)
  unfolding run mark_failed
  fail_row-Settled (some e) i now code reason w row lo hi c u l =
      stop-Settled w row u (lost_call i e lo hi l)
  fail_row-Settled none i now code reason w row lo hi c u l = record {
    others =
        Others-update tx.id (set_failed code reason now) base w
          (run none (mark_failed tx.id code reason now) w) (λ t. unfold set_failed in refl) u.others
          refl;
    row = set_failed code reason now row;
    stored =
        find-update_tx tx.id (set_failed code reason now) (λ t. unfold set_failed in refl)
          w.db.transactions row u.stored;
    fate = gave_up code (unfold set_failed in refl) (unfold set_failed in refl) c;
  }

  pub fail_tx-Settled :
      (i : ℕ) (code : ErrorCode) (reason : Text) (actor : Actor) (w : World) (row : Transaction)
      → 2 ≤ i
      → i ≤ 3
      → GivesUp p env tx replies base code
      → Underway tx.id base w row
      → Settled p env tx replies base (fail_tx env i tx code reason actor w)
  unfolding fail_tx
  fail_tx-Settled i code reason actor w row lo hi c u =
      Settled-log (run (env.link i) (mark_failed tx.id code reason (env.clock i)) w)
        (env.link (i + 1)) _
        (fail_row-Settled (env.link i) i (env.clock i) code reason w row lo hi c u refl)

-- The loop ends without an error only behind a try that the node accepted.
pub broadcast_accepted :
    (node : ℕ → Option Text) (left made : ℕ) (last : Option Text)
    → (broadcast node (suc left) made last).1 ≡ none
    → (i : ℕ) × (i < suc left + made) × (node i ≡ none)
unfolding broadcast
broadcast_accepted node zero made last h = elim (Option-cases (node made)) [
  | inl e ↦ (made, omega arith, e)
  | inr (x, e) ↦ absurd (let bad = rw (e, broadcast) at h in cc)
]
broadcast_accepted node (suc left) made last h = elim (Option-cases (node made)) [
  | inl e ↦ (made, omega arith, e)
  | inr (x, e) ↦
      let (i, below, k) =
        broadcast_accepted node left (suc made) (some x) (rw (e, broadcast) at h) in
      (i, omega arith, k)
]

-- It ends with an error only behind tries that all failed.
pub broadcast_refused :
    (node : ℕ → Option Text) (left made : ℕ) (last : Option Text) (x : Text)
    → (broadcast node left made last).1 ≡ some x
    → (i : ℕ) → made ≤ i
    → i < left + made
    → (e : Text) × (node i ≡ some e)
unfolding broadcast
broadcast_refused node zero made last x h i lo hi = absurd (omega arith)
broadcast_refused node (suc left) made last x h i lo hi = elim (Option-cases (node made)) [
  | inl e ↦ absurd (let bad = rw (e, broadcast) at h in cc)
  | inr (y, e) ↦ elim (Bool-cases (made == i)) [
    | inl same ↦ let eq : made ≡ i = ground arith in (y, rw (← eq) e)
    | inr other ↦
        broadcast_refused node left (suc made) (some y) x (rw (e, broadcast) at h) i (ground arith)
          (omega arith)
  ]
]

-- The loop ends without an error only behind a try that succeeded.
pub broadcast_made :
    (node : ℕ → Option Text) (left made : ℕ) (last : Option Text)
    → (broadcast node (suc left) made last).1 ≡ none
    → made < (broadcast node (suc left) made last).0
unfolding broadcast
broadcast_made node zero made last h = ground arith
broadcast_made node (suc left) made last h = elim (Option-cases (node made)) [
  | inl e ↦ rw (e, broadcast) (omega arith)
  | inr (x, e) ↦
      let again = rw (e, broadcast) at h in
      rw (e, broadcast) (omega (arith, broadcast_made node left (suc made) (some x) again))
]

pub In-replicate : (a made : ℕ) (xs : List ℕ) → 0 < made → In a (xs ++ replicate made a)
In-replicate a zero xs h = absurd (omega arith)
In-replicate a (suc made) [] h = inl refl
In-replicate a (suc made) (x ∷ xs) h = inr (In-replicate a (suc made) xs h)
