-- ===== src/Service/Workers.antt =====
-- The stuck detector makes writes of repo.go only.
use evm_tx_sender.Prelude.{
  ℕ, ◌+◌, ◌-◌, ◌≡◌, refl, Text, Option, none, some, Result, ok, err, List, [], ◌∷◌, codes, length,
  get_last?, ltb, Bool-cases, inl, inr,
}
use evm_tx_sender.Domain.{Transaction, TxAttempt, GasParams, max_retries_exceeded}
use evm_tx_sender.Repo.{
  Db, call, create_attempt, mark_submitted, mark_failed, get_attempts_by_transaction_id,
  get_stuck_transactions,
}
use evm_tx_sender.Repo.Nonces.History.{submit, fail, attempt}
use evm_tx_sender.Worker.{World, Env, guarded, run, hand_over}
use evm_tx_sender.Stuck.{
  StuckDetector, resubmit, rebroadcast, next_attempt, store_bump, bump_last, bump, handle,
  check_one, check_all, check, max_gas_bumps,
}
use evm_tx_sender.Service.Calls.{
  SafeWrite, SafeWrites, no_writes, SafeWrites-trans, one_write, run-Writes, log-Writes,
}

-- What holds of a world, if there is one: a panic ends the process and writes nothing more.
abbrev pub IfAny : (World → Type 0) → Option World → Type 0
IfAny P none = Unit
IfAny P (some w) = P w

abbrev pub Since : World → World → Type 0
Since w w' = SafeWrites w.db w'.db

module _ (sd : StuckDetector) (env : Env) (tx : Transaction) where
  resubmit-Writes :
      (k tx_hash : ℕ) (node : Option Text) (w : World)
      → Since w (resubmit sd env tx k tx_hash node w)
  unfolding resubmit
  resubmit-Writes k tx_hash (some e) w = no_writes
  resubmit-Writes k tx_hash none w =
      SafeWrites-trans
        (run-Writes (env.link 2) (mark_submitted tx.id tx_hash (env.clock 2)) w
          (λ db' e. (submit tx.id tx_hash (env.clock 2) e, tt)))
        (log-Writes (env.link 3) _
          (run (env.link 2) (mark_submitted tx.id tx_hash (env.clock 2)) w))

  rebroadcast-Writes :
      (link : Option Text) (k tx_hash : ℕ) (w : World) (r : Result Text Db)
      → ((db' : Db) → r ≡ ok db' → SafeWrite w.db db')
      → Since w (rebroadcast sd env tx k tx_hash (call link w.db r) w)
  unfolding rebroadcast
  rebroadcast-Writes (some e) k tx_hash w r write = no_writes
  rebroadcast-Writes none k tx_hash w (err e) write = no_writes
  rebroadcast-Writes none k tx_hash w (ok db) write =
      SafeWrites-trans (one_write (write db refl))
        (resubmit-Writes k tx_hash (env.node 0) (hand_over tx_hash (record w { db = db })))

  store_bump-Writes :
      (k : ℕ) (gas : GasParams) (r : Result Text (ℕ × Text)) (w : World)
      → Since w (store_bump sd env tx k gas r w)
  unfolding store_bump
  store_bump-Writes k gas (err e) w = no_writes
  store_bump-Writes k gas (ok (tx_hash, raw)) w =
      rebroadcast-Writes (env.link 1) k tx_hash w
        (create_attempt (next_attempt sd env tx k gas tx_hash raw) w.db)
        (λ db' e. (attempt (next_attempt sd env tx k gas tx_hash raw) e, tt))

  bump_last-Writes :
      (nonce k : ℕ) (last : Option TxAttempt) (w : World)
      → IfAny (Since w) (bump_last sd env tx nonce k last w)
  unfolding bump_last
  bump_last-Writes nonce k none w = tt
  bump_last-Writes nonce k (some last) w =
      elim (Bool-cases (ltb (env.clock 1) (last.created_at + sd.chain.gas_bump_interval))) [
        | inl e ↦ rw e no_writes
        | inr e ↦ rw e (store_bump-Writes k _ _ w)
      ]

  bump-Writes :
      (nonce : Option ℕ) (attempts : List TxAttempt) (w : World)
      → IfAny (Since w) (bump sd env tx nonce attempts w)
  unfolding bump
  bump-Writes none attempts w = no_writes
  bump-Writes (some nonce) attempts w =
      bump_last-Writes nonce (length attempts) (get_last? attempts) w

  handle-Writes :
      (r : Result Text (List TxAttempt)) (w : World) → IfAny (Since w) (handle sd env tx r w)
  unfolding handle
  handle-Writes (err e) w = no_writes
  handle-Writes (ok attempts) w = elim (Bool-cases (ltb max_gas_bumps (length attempts))) [
    | inl e ↦ rw e (
        SafeWrites-trans
          (run-Writes (env.link 1) give_up w (λ db' k.
            (fail tx.id max_retries_exceeded (codes "max gas bumps exceeded") (env.clock 1) k, tt)))
          (log-Writes (env.link 2) _ (run (env.link 1) give_up w)))
    | inr e ↦ rw e (bump-Writes tx.nonce attempts w)
  ]
    where
      give_up : Db → Result Text Db
      give_up =
          mark_failed tx.id max_retries_exceeded (codes "max gas bumps exceeded") (env.clock 1)

  check_one-Writes : (w : World) → IfAny (Since w) (check_one sd env tx w)
  unfolding check_one
  check_one-Writes w =
      handle-Writes (guarded (env.link 0) (ok (get_attempts_by_transaction_id tx.id w.db))) w

check_all-Writes :
    (sd : StuckDetector) (envs : ℕ → Env) (txs : List Transaction) (w : World)
    → IfAny (Since w) (check_all sd envs txs w)
unfolding check_all
check_all-Writes sd envs [] w = no_writes
check_all-Writes sd envs (tx ∷ txs) w =
    go (check_one sd (envs tx.id) tx w) (check_one-Writes sd (envs tx.id) tx w)
      (λ w'. check_all-Writes sd envs txs w')
  where
    later : (w' : World) (o : Option World) → Since w w' → IfAny (Since w') o → IfAny (Since w) o
    later w' none first rest = tt
    later w' (some w'') first rest = SafeWrites-trans first rest

    go :
        (o : Option World)
        → IfAny (Since w) o
        → ((w' : World) → IfAny (Since w') (check_all sd envs txs w'))
        → IfAny (Since w) (elim o [ none ↦ none | some w' ↦ check_all sd envs txs w' ])
    go none first rest = tt
    go (some w') first rest = later w' (check_all sd envs txs w') first (rest w')

-- A check of the stuck detector makes writes of repo.go only.
pub check-Writes :
    (sd : StuckDetector) (link : Option Text) (envs : ℕ → Env) (now : ℕ) (w : World)
    → IfAny (Since w) (check sd link envs now w)
unfolding check
check-Writes sd (some e) envs now w = no_writes
check-Writes sd none envs now w =
    check_all-Writes sd envs
      (get_stuck_transactions sd.chain.chain_id (now - sd.stuck_threshold) w.db) w
