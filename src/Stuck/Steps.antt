-- ===== src/Stuck/Steps.antt =====
-- One pass of `check` over one transaction as a step relation, and that the code takes such steps.
use evm_tx_sender.Prelude.{
  ℕ, ◌+◌, ◌≤◌, ◌<◌, Text, ◌≡◌, refl, ◌⊎◌, arith, ◌∙◌, ap, Option, none, some, Result, ok, err,
  Ensures, List, [], ◌∷◌, ◌++◌, codes, length, get_last?, ltb, Bool-cases, inl, inr,
}
use evm_tx_sender.Domain.{Transaction, TxAttempt, TxStateLog, max_retries_exceeded}
use evm_tx_sender.Gas.{bump_gas}
use evm_tx_sender.Repo.{Db, call, update_tx, set_submitted, set_failed, mark_submitted, mark_failed}
use evm_tx_sender.Worker.{guarded, World, Env, run, log_transition, build_and_sign}
use evm_tx_sender.Worker.Frame.{SameButLog, log-SameButLog, create_attempt_appends}
use evm_tx_sender.Stuck.{
  handle, max_gas_bumps, StuckDetector, resubmit, rebroadcast, next_attempt, store_bump, bump_last,
  bump,
}

-- An attempt that replaces the last one of a transaction: the next number, the same nonce, and a
-- signature over the bumped fees.
pub record Replaces (sd : StuckDetector) (tx : Transaction) (attempts : List TxAttempt)
    (a : TxAttempt) : Type 0 where
  pub nonce : ℕ
  pub last : TxAttempt
  pub has_nonce : tx.nonce ≡ some nonce
  pub is_last : get_last? attempts ≡ some last
  pub within_limit : length attempts ≤ 5
  pub of_transaction : a.transaction_id ≡ tx.id
  pub is_next : a.attempt_number ≡ length attempts + 1
  pub pays_more : a.gas ≡ bump_gas last.gas (length attempts)
  pub is_signed :
      build_and_sign sd.signer tx.sender sd.chain.chain_id tx nonce a.gas ≡ ok (a.tx_hash, a.raw_tx)

-- What can happen to a transaction whose attempts were read as `attempts`.
pub data Step (sd : StuckDetector) (tx : Transaction) (attempts : List TxAttempt) (w w' : World)
    : Type 0 where
  idle : SameButLog w w' → Step sd tx attempts w w'
  gave_up :
      (now : ℕ)
      → 5 < length attempts
      → w'.db.transactions
        ≡ update_tx tx.id
            (set_failed max_retries_exceeded (codes "max gas bumps exceeded") now)
            w.db.transactions
      → w'.db.attempts ≡ w.db.attempts
      → w'.sent ≡ w.sent
      → Step sd tx attempts w w'
  replaced :
      (a : TxAttempt)
      → Replaces sd tx attempts a
      → w'.db.transactions ≡ w.db.transactions
      → w'.db.attempts ≡ w.db.attempts ++ a ∷ []
      → w'.sent ≡ w.sent ++ a.tx_hash ∷ []
      → Step sd tx attempts w w'
  resubmitted :
      (a : TxAttempt) (now : ℕ)
      → Replaces sd tx attempts a
      → w'.db.transactions ≡ update_tx tx.id (set_submitted a.tx_hash now) w.db.transactions
      → w'.db.attempts ≡ w.db.attempts ++ a ∷ []
      → w'.sent ≡ w.sent ++ a.tx_hash ∷ []
      → Step sd tx attempts w w'

pub has_last : {A : Type 0} (xs : List A) → 0 < length xs → (x : A) × (get_last? xs ≡ some x)
has_last [] h = absurd (omega arith)
has_last (x ∷ []) h = (x, refl)
has_last (x ∷ y ∷ xs) h = has_last (y ∷ xs) (omega arith)

-- The process survives, in a state of which a predicate holds.
abbrev pub Survives : (World → Type 0) → Option World → Type 0
Survives P none = ⊥
Survives P (some w) = P w

still : (w : World) → SameButLog w w
still w = record {
  same_transactions = refl;
  same_attempts = refl;
  same_cursors = refl;
  same_sent = refl;
}

module _ (sd : StuckDetector) (tx : Transaction) (attempts : List TxAttempt) (w : World) where
  Step-SameButLog :
      (w' w'' : World) → SameButLog w' w'' → Step sd tx attempts w w' → Step sd tx attempts w w''
  Step-SameButLog w' w'' same (idle s) = idle (record {
    same_transactions = same.same_transactions ∙ s.same_transactions;
    same_attempts = same.same_attempts ∙ s.same_attempts;
    same_cursors = same.same_cursors ∙ s.same_cursors;
    same_sent = same.same_sent ∙ s.same_sent;
  })
  Step-SameButLog w' w'' same (gave_up now many rows old sent) =
      gave_up now many (same.same_transactions ∙ rows) (same.same_attempts ∙ old)
        (same.same_sent ∙ sent)
  Step-SameButLog w' w'' same (replaced a r rows new sent) =
      replaced a r (same.same_transactions ∙ rows) (same.same_attempts ∙ new)
        (same.same_sent ∙ sent)
  Step-SameButLog w' w'' same (resubmitted a now r rows new sent) =
      resubmitted a now r (same.same_transactions ∙ rows) (same.same_attempts ∙ new)
        (same.same_sent ∙ sent)

  Step-log :
      (link : Option Text) (entry : TxStateLog) (w' : World)
      → Step sd tx attempts w w'
      → Step sd tx attempts w (log_transition link entry w')
  Step-log link entry w' s =
      Step-SameButLog w' (log_transition link entry w') (log-SameButLog link entry w') s

  -- Behind `CreateAttempt` and the broadcast, on the error of the broadcast and that of the
  -- database.
  resubmit-Step :
      (env : Env) (bump_number : ℕ) (node : Option Text) (a : TxAttempt) (w' : World)
      → Replaces sd tx attempts a
      → w'.db.transactions ≡ w.db.transactions
      → w'.db.attempts ≡ w.db.attempts ++ a ∷ []
      → w'.sent ≡ w.sent ++ a.tx_hash ∷ []
      → Step sd tx attempts w (resubmit sd env tx bump_number a.tx_hash node w')
  unfolding resubmit run mark_submitted
  resubmit-Step env bump_number (some e) a w' r rows new sent = replaced a r rows new sent
  resubmit-Step env bump_number none a w' r rows new sent =
      Step-log (env.link 3) _ _ (go (env.link 2))
    where
      go :
          (link : Option Text)
          → Step sd tx attempts w (run link (mark_submitted tx.id a.tx_hash (env.clock 2)) w')
      go (some e) = replaced a r rows new sent
      go none =
          resubmitted a (env.clock 2) r
            (ap (update_tx tx.id (set_submitted a.tx_hash (env.clock 2))) rows) new sent

  rebroadcast-Step :
      (env : Env) (bump_number : ℕ) (link : Option Text) (res : Result Text Db) (a : TxAttempt)
      → Replaces sd tx attempts a
      → Ensures
          (λ db'.
            (db'.transactions ≡ w.db.transactions)
            × (db'.attempts ≡ w.db.attempts ++ a ∷ [])
            × (db'.nonce_cursors ≡ w.db.nonce_cursors))
          res
      → Step sd tx attempts w (rebroadcast sd env tx bump_number a.tx_hash (call link w.db res) w)
  unfolding rebroadcast
  rebroadcast-Step env bump_number (some e) res a r k = idle (still w)
  rebroadcast-Step env bump_number none (err e) a r k = idle (still w)
  rebroadcast-Step env bump_number none (ok db) a r k =
      resubmit-Step env bump_number (env.node 0) a _ r k.0 k.1 refl

  store_bump-Step :
      (env : Env) (nonce : ℕ) (last : TxAttempt) (signed : Result Text (ℕ × Text))
      → tx.nonce ≡ some nonce
      → get_last? attempts ≡ some last
      → length attempts ≤ 5
      → build_and_sign sd.signer tx.sender sd.chain.chain_id tx nonce
          (bump_gas last.gas (length attempts))
        ≡ signed
      → Step sd tx attempts w
          (store_bump sd env tx (length attempts) (bump_gas last.gas (length attempts)) signed w)
  unfolding store_bump
  store_bump-Step env nonce last (err e) n l within signs = idle (still w)
  store_bump-Step env nonce last (ok (tx_hash, raw)) n l within signs =
      rebroadcast-Step env (length attempts) (env.link 1) _ a
        (record {
          nonce = nonce;
          last = last;
          has_nonce = n;
          is_last = l;
          within_limit = within;
          of_transaction = refl;
          is_next = refl;
          pays_more = refl;
          is_signed = signs;
        })
        (create_attempt_appends a w.db)
    where
      a : TxAttempt
      a = next_attempt sd env tx (length attempts) (bump_gas last.gas (length attempts)) tx_hash raw

  bump-Step :
      (env : Env) (nonce : Option ℕ) (last : TxAttempt)
      → tx.nonce ≡ nonce
      → get_last? attempts ≡ some last
      → length attempts ≤ 5
      → Survives (Step sd tx attempts w) (bump sd env tx nonce attempts w)
  unfolding bump bump_last
  bump-Step env none last n l within = idle (still w)
  bump-Step env (some nonce) last n l within =
      rw l (elim (Bool-cases (ltb (env.clock 1) (last.created_at + sd.chain.gas_bump_interval))) [
        | inl e ↦ rw e (idle (still w))
        | inr e ↦ rw e (store_bump-Step env nonce last _ n l within refl)
      ])

  give_up-Step :
      (env : Env)
      → 5 < length attempts
      → (link : Option Text)
      → Step sd tx attempts w (
          run link
            (mark_failed tx.id max_retries_exceeded (codes "max gas bumps exceeded") (env.clock 1))
            w)
  unfolding run mark_failed
  give_up-Step env many (some e) = idle (still w)
  give_up-Step env many none = gave_up (env.clock 1) many refl refl refl

  pub handle-Step :
      (env : Env)
      → (tx.nonce ≡ none) ⊎ (0 < length attempts)
      → (link : Option Text)
      → Survives (Step sd tx attempts w) (handle sd env tx (guarded link (ok attempts)) w)
  unfolding handle bump
  handle-Step env backed (some e) = idle (still w)
  handle-Step env backed none = elim (Bool-cases (ltb max_gas_bumps (length attempts))) [
    | inl e ↦ rw e (Step-log (env.link 2) _ _ (give_up-Step env (ground arith) (env.link 1)))
    | inr e ↦ rw e (go backed (ground arith))
  ]
    where
      go :
          (tx.nonce ≡ none) ⊎ (0 < length attempts)
          → length attempts ≤ 5
          → Survives (Step sd tx attempts w) (bump sd env tx tx.nonce attempts w)
      go (inl e) within = rw e (idle (still w))
      go (inr n) within =
          let (last, l) = has_last attempts n in bump-Step env tx.nonce last refl l within
