-- ===== src/Pipeline/Fate.antt =====
-- What becomes of the transaction that `processTx` works on, and that no other is touched.
use evm_tx_sender.Prelude.{
  ℕ, ◌<◌, Text, ◌≡◌, ◌⊎◌, inl, inr, Option-cases, sym, refl, ◌∙◌, ap, true, Option, none, some,
  Result, ok, err, Ensures, [], ◌∷◌, ◌++◌, replicate, In, arith,
}
use evm_tx_sender.Domain.{
  Transaction, TxStatus, TxAttempt, broadcast_failed, signing_failed, estimation_reverted,
  internal_error, GasParams, Actor, claimed_by_pipeline,
}
use evm_tx_sender.Gas.{GasReplies, estimate}
use evm_tx_sender.Repo.{
  Db, call, find_tx, update_tx, set_nonce, set_submitted, mark_submitted, create_attempt,
  get_nonce_cursor, assign_nonce_and_mark_pending,
}
use evm_tx_sender.Repo.Lookup.{find-update_tx}
use evm_tx_sender.Worker.{World, Env, guarded, log_entry, log_transition, build_and_sign}
use evm_tx_sender.Worker.Frame.{
  SameButLog, log-SameButLog, Others-update, Others-same, is_attempt_of, has_attempt,
  create_attempt_appends, assign_writes, any-append,
}
use evm_tx_sender.Pipeline.{
  Pipeline, broadcast, max_broadcast_retries, finish, after_broadcast, send, first_attempt, store,
  sign, price, process_tx,
}
use evm_tx_sender.Pipeline.Outcome.{
  GivesUp, no_nonce, no_estimate, no_signature, no_broadcast, Interrupted, lost_call,
  refused_attempt, handed_over, Settled, Underway, broadcast_accepted, broadcast_refused,
  refused-clashes, Settled-log, stop-Settled, fail_tx-Settled, broadcast_made, In-replicate,
}

module _ (p : Pipeline) (env : Env) (tx : Transaction) (replies : GasReplies) (actor : Actor)
    (base : World) where
  abbrev Ends : World → Type 0
  Ends w' = Settled p env tx replies base w'

  -- An accepted try, and tries that all failed.
  abbrev Accepted : Type 0
  Accepted = (i : ℕ) × (i < 5) × (env.node i ≡ none)

  abbrev AllRefused : Type 0
  AllRefused = (i : ℕ) → i < 5 → (e : Text) × (env.node i ≡ some e)

  -- Behind a broadcast that went through, with the attempt stored.
  finish-Settled :
      (link : Option Text) (nonce tx_hash now : ℕ) (w : World) (row : Transaction)
      → Underway tx.id base w row
      → row.nonce ≡ some nonce
      → has_attempt tx.id tx_hash w.db ≡ true
      → In tx_hash w.sent
      → Accepted
      → env.link 3 ≡ link
      → Ends (
          finish p env tx actor nonce tx_hash
            (call link w.db (mark_submitted tx.id tx_hash now w.db))
            w)
  unfolding finish mark_submitted
  finish-Settled (some e) nonce tx_hash now w row u n a i ok_node l =
      stop-Settled p env tx replies base w row u (lost_call 3 e (omega arith) (omega arith) l)
  finish-Settled none nonce tx_hash now w row u n a i (j, below, accepted) l =
      Settled-log p env tx replies base w' (env.link 4) _ (record {
        others =
            Others-update tx.id (set_submitted tx_hash now) base w w'
              (λ t. unfold set_submitted in refl) u.others refl;
        row = set_submitted tx_hash now row;
        stored =
            find-update_tx tx.id (set_submitted tx_hash now) (λ t. unfold set_submitted in refl)
              w.db.transactions row u.stored;
        fate =
            handed_over tx_hash nonce j (unfold set_submitted in refl)
              (unfold set_submitted in refl) (unfold set_submitted in n) a i below accepted;
      })
    where
      w' : World
      w' = record w {
        db = record (w.db) {
          transactions = update_tx tx.id (set_submitted tx_hash now) w.db.transactions;
        };
      }

  after_broadcast-Settled :
      (last : Option Text) (nonce tx_hash : ℕ) (w : World) (row : Transaction)
      → Underway tx.id base w row
      → row.nonce ≡ some nonce
      → has_attempt tx.id tx_hash w.db ≡ true
      → (last ≡ none → In tx_hash w.sent × Accepted)
      → ((e : Text) → last ≡ some e → AllRefused)
      → Ends (after_broadcast p env tx actor nonce tx_hash last w)
  unfolding after_broadcast
  after_broadcast-Settled (some e) nonce tx_hash w row u n a i refused =
      fail_tx-Settled p env tx replies base 3 broadcast_failed e actor w row (omega arith)
        (omega arith) (no_broadcast (refused e refl)) u
  after_broadcast-Settled none nonce tx_hash w row u n a i refused =
      finish-Settled (env.link 3) nonce tx_hash (env.clock 3) w row u n a (i refl).0 (i refl).1 refl

  -- What `CreateAttempt` leaves, if it succeeds.
  abbrev Stored : ℕ → World → Db → Type 0
  Stored tx_hash w db =
      (db.transactions ≡ w.db.transactions) × (has_attempt tx.id tx_hash db ≡ true)

  create_attempt-Stored :
      (gas : GasParams) (tx_hash : ℕ) (raw : Text) (w : World)
      → Ensures
          (Stored tx_hash w)
          (create_attempt (first_attempt p env tx actor gas tx_hash raw) w.db)
  create_attempt-Stored gas tx_hash raw w =
      go (create_attempt a w.db) (create_attempt_appends a w.db)
    where
      a : TxAttempt
      a = first_attempt p env tx actor gas tx_hash raw

      go :
          (r : Result Text Db)
          → Ensures
              (λ db'.
                (db'.transactions ≡ w.db.transactions)
                × (db'.attempts ≡ w.db.attempts ++ a ∷ [])
                × (db'.nonce_cursors ≡ w.db.nonce_cursors))
              r
          → Ensures (Stored tx_hash w) r
      go (err e) h = tt
      go (ok db) h =
          (h.0, rw h.1 (any-append (is_attempt_of tx.id tx_hash) a w.db.attempts (ground arith)))

  send-Settled :
      (link : Option Text) (r : Result Text Db) (nonce tx_hash : ℕ) (w : World) (row : Transaction)
      → Underway tx.id base w row
      → row.nonce ≡ some nonce
      → Ensures (Stored tx_hash w) r
      → env.link 2 ≡ link
      → ((e : Text) → r ≡ err e → Interrupted p env tx replies base)
      → Ends (send p env tx actor nonce tx_hash (call link w.db r) w)
  unfolding send
  send-Settled (some e) r nonce tx_hash w row u n s l x =
      stop-Settled p env tx replies base w row u (lost_call 2 e (omega arith) (omega arith) l)
  send-Settled none (err e) nonce tx_hash w row u n s l x =
      stop-Settled p env tx replies base w row u (x e refl)
  send-Settled none (ok db) nonce tx_hash w row u n s l x =
      after_broadcast-Settled last nonce tx_hash w' row
        (record {
          others = Others-same tx.id base w w' u.others s.0;
          stored = ap (find_tx tx.id) s.0 ∙ u.stored;
          is_pending = u.is_pending;
        })
        n s.1
        (λ h. (
          In-replicate tx_hash made w.sent (broadcast_made env.node 4 0 none h),
          broadcast_accepted env.node 4 0 none h,
        ))
        (λ e h i below. broadcast_refused env.node 5 0 none e h i (omega arith) below)
    where
      made : ℕ
      made = (broadcast env.node max_broadcast_retries 0 none).0

      last : Option Text
      last = (broadcast env.node max_broadcast_retries 0 none).1

      w' : World
      w' = record { db = db; sent = w.sent ++ replicate made tx_hash }

  store-Settled :
      (r : Result Text (ℕ × Text)) (nonce : ℕ) (gas : GasParams) (w : World) (row : Transaction)
      → Underway tx.id base w row
      → row.nonce ≡ some nonce
      → estimate replies p.chain tx.priority ≡ ok gas
      → r ≡ build_and_sign p.signer p.sender p.chain.chain_id tx nonce gas
      → w.db.attempts ≡ base.db.attempts
      → Ends (store p env tx actor nonce gas r w)
  unfolding store
  store-Settled (err e) nonce gas w row u n known signed same =
      fail_tx-Settled p env tx replies base 2 signing_failed e actor w row (omega arith)
        (omega arith) (no_signature nonce gas e known (sym signed)) u
  store-Settled (ok (tx_hash, raw)) nonce gas w row u n known signed same =
      let a = first_attempt p env tx actor gas tx_hash raw in
      send-Settled (env.link 2) _ nonce tx_hash w row u n (create_attempt-Stored gas tx_hash raw w)
        refl
        (λ e h.
          refused_attempt a refl refl refl (rw (← same) (refused-clashes a row e w.db u.stored h)))

  sign-Settled :
      (r : Result Text GasParams) (nonce : ℕ) (w : World) (row : Transaction)
      → Underway tx.id base w row
      → row.nonce ≡ some nonce
      → estimate replies p.chain tx.priority ≡ r
      → w.db.attempts ≡ base.db.attempts
      → Ends (sign p env tx actor nonce r w)
  unfolding sign
  sign-Settled (err e) nonce w row u n known same =
      fail_tx-Settled p env tx replies base 2 estimation_reverted e actor w row (omega arith)
        (omega arith) (no_estimate e known) u
  sign-Settled (ok gas) nonce w row u n known same =
      store-Settled _ nonce gas w row u n known refl same

  price-Settled :
      (r : Result Text (ℕ × Db)) (now : ℕ) (w : World) (row : Transaction)
      → Underway tx.id base w row
      → Ensures
          (λ (out : ℕ × Db).
            (out.1.transactions ≡ update_tx tx.id (set_nonce out.0 now) w.db.transactions)
            × (out.1.attempts ≡ w.db.attempts))
          r
      → ((e : Text) → r ≡ err e → GivesUp p env tx replies base internal_error)
      → w.db.attempts ≡ base.db.attempts
      → Ends (price p env tx actor replies r w)
  unfolding price
  price-Settled (err e) now w row u s none_left same =
      fail_tx-Settled p env tx replies base 2 internal_error _ actor w row (omega arith)
        (omega arith) (none_left e refl) u
  price-Settled (ok (nonce, db)) now w row u s none_left same =
      sign-Settled _ nonce w' (set_nonce nonce now row)
        (record {
          others =
              Others-update tx.id (set_nonce nonce now) base w w' (λ t. unfold set_nonce in refl)
                u.others s.0;
          stored =
              ap (find_tx tx.id) s.0
              ∙ find-update_tx tx.id (set_nonce nonce now) (λ t. unfold set_nonce in refl)
                  w.db.transactions row u.stored;
          is_pending = unfold set_nonce in u.is_pending;
        })
        (unfold set_nonce in refl) refl (s.1 ∙ same)
    where
      w' : World
      w' = record w { db = db }

-- An assignment is refused only where the pair has no cursor.
assign_refused :
    (link : Option Text) (id s c now : ℕ) (db : Db) (e : Text)
    → guarded link (assign_nonce_and_mark_pending id s c now db) ≡ err e
    → ((x : Text) × (link ≡ some x)) ⊎ (get_nonce_cursor s c db ≡ none)
unfolding assign_nonce_and_mark_pending
assign_refused (some x) id s c now db e h = inl (x, refl)
assign_refused none id s c now db e h = elim (Option-cases (get_nonce_cursor s c db)) [
  | inl k ↦ inr k
  | inr (r, k) ↦ absurd (let bad = rw (k, assign_nonce_and_mark_pending) at h in cc)
]

-- However the database, the node and the signer answer, `processTx` on a pending transaction ends
-- with its row in one of three states, and leaves every other row as it was. Either the row is
-- still pending, and then the call that stores the attempt or the one that writes the final status
-- failed, or there was an attempt with the new id, or a first one of the transaction, before. Or it is failed, with the code of
-- what happened: no nonce could be assigned, the estimate failed, the signer refused, or all five
-- tries of the broadcast failed. Or it is submitted with the hash of the broadcast transaction and
-- a nonce, an attempt with that hash is stored for it, and that hash was handed to a node, which
-- accepted one of five tries at most.
pub process_tx_settles :
    (p : Pipeline) (env : Env) (tx : Transaction) (actor : Actor) (replies : GasReplies) (w : World)
    (row : Transaction)
    → find_tx tx.id w.db.transactions ≡ some row
    → row.status ≡ TxStatus.pending
    → Settled p env tx replies w (process_tx p env tx actor replies w)
unfolding process_tx get_nonce_cursor
process_tx_settles p env tx actor replies w row there pending =
    price-Settled p env tx replies actor w _ (env.clock 1) w' row
      (record {
        others = λ j ne. ap (find_tx j) same.same_transactions;
        stored = ap (find_tx tx.id) same.same_transactions ∙ there;
        is_pending = pending;
      })
      (assign_writes (env.link 1) tx.id p.sender p.chain.chain_id (env.clock 1) w'.db)
      (λ e h. no_nonce (
        rw (← same.same_cursors)
          (assign_refused (env.link 1) tx.id p.sender p.chain.chain_id (env.clock 1) w'.db e h)))
      same.same_attempts
  where
    w' : World
    w' =
        log_transition (env.link 0)
          (log_entry tx.id (some TxStatus.queued) TxStatus.pending actor claimed_by_pipeline) w

    same : SameButLog w w'
    same = log-SameButLog (env.link 0) _ w
