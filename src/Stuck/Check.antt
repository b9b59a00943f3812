-- ===== src/Stuck/Check.antt =====
-- `check` and `bumpGas`. A `none` world is a panic, which ends the process.
use evm_tx_sender.Prelude.{
  ℕ, ◌+◌, ◌-◌, ◌*◌, ◌^◌, Text, Option, none, some, Result, ok, err, List, [], ◌∷◌, codes, length,
  get_last?, ltb, ◌==◌, if◌then◌else◌,
}
use evm_tx_sender.Domain.{
  Transaction, TxStatus, TxAttempt, attempt_broadcast, GasParams, max_retries_exceeded,
  stuck_detector_actor, max_gas_bumps_exceeded, gas_bump, ChainConfig,
}
use evm_tx_sender.Gas.{bump_gas}
use evm_tx_sender.Repo.{
  Db, call, create_attempt, mark_submitted, mark_failed, get_attempts_by_transaction_id,
  get_stuck_transactions,
}
use evm_tx_sender.Worker.{
  World, Env, guarded, run, log_entry, log_transition, hand_over, Signer, build_and_sign,
}

-- `maxGasBumps`
abbrev pub max_gas_bumps : ℕ
max_gas_bumps = 5

pub record StuckDetector : Type 0 where
  pub chain : ChainConfig
  pub signer : Signer
  pub stuck_threshold : ℕ

-- `NewStuckDetector`: three minutes where the configuration says zero.
unfoldable pub new_stuck_detector : ChainConfig → Signer → StuckDetector
new_stuck_detector chain signer = record {
  chain = chain;
  signer = signer;
  stuck_threshold = if chain.stuck_threshold == 0 then 180 * 10 ^ 9 else chain.stuck_threshold;
}

module _ (sd : StuckDetector) (env : Env) (tx : Transaction) where
  -- Behind the broadcast: the error of `MarkSubmitted` is dropped.
  unfoldable pub resubmit : ℕ → ℕ → Option Text → World → World
  unfolding run log_transition
  resubmit bump_number tx_hash (some e) w = w
  resubmit bump_number tx_hash none w =
      log_transition (env.link 3)
        (log_entry tx.id (some TxStatus.submitted) TxStatus.submitted stuck_detector_actor
          (gas_bump bump_number tx_hash))
        (run (env.link 2) (mark_submitted tx.id tx_hash (env.clock 2)) w)

  -- The broadcast, on the error of `CreateAttempt`.
  unfoldable pub rebroadcast : ℕ → ℕ → Db × Option Text → World → World
  unfolding resubmit
  rebroadcast bump_number tx_hash (db, some e) w = record w { db = db }
  rebroadcast bump_number tx_hash (db, none) w =
      resubmit bump_number tx_hash (env.node 0) (hand_over tx_hash (record w { db = db }))

  abbrev pub next_attempt : ℕ → GasParams → ℕ → Text → TxAttempt
  next_attempt bump_number gas tx_hash raw = record {
    id = env.new_id;
    transaction_id = tx.id;
    attempt_number = bump_number + 1;
    tx_hash = tx_hash;
    gas = gas;
    raw_tx = raw;
    status = attempt_broadcast;
    error_reason = [];
    created_at = env.clock 1;
    confirmed_at = none;
  }

  -- On the signed replacement.
  unfoldable pub store_bump : ℕ → GasParams → Result Text (ℕ × Text) → World → World
  unfolding rebroadcast
  store_bump bump_number gas (err e) w = w
  store_bump bump_number gas (ok (tx_hash, raw)) w =
      rebroadcast bump_number tx_hash
        (call (env.link 1) w.db (create_attempt (next_attempt bump_number gas tx_hash raw) w.db)) w

  -- `bumpGas` behind the check of the nonce, on the last attempt; there is none if the list is
  -- empty, and its index is out of range. The signer is asked for the sender of the row.
  unfoldable pub bump_last : ℕ → ℕ → Option TxAttempt → World → Option World
  unfolding store_bump build_and_sign bump_gas
  bump_last nonce bump_number none w = none
  bump_last nonce bump_number (some last) w =
      let bumped = bump_gas last.gas bump_number in
      if ltb (env.clock 1) (last.created_at + sd.chain.gas_bump_interval)
      then some w
      else some (
          store_bump bump_number bumped
            (build_and_sign sd.signer tx.sender sd.chain.chain_id tx nonce bumped) w)

  unfoldable pub bump : Option ℕ → List TxAttempt → World → Option World
  unfolding bump_last
  bump none attempts w = some w
  bump (some nonce) attempts w = bump_last nonce (length attempts) (get_last? attempts) w

  -- The body of the loop of `check`, on the attempts that were read.
  unfoldable pub handle : Result Text (List TxAttempt) → World → Option World
  unfolding run log_transition bump
  handle (err e) w = some w
  handle (ok attempts) w =
      if ltb max_gas_bumps (length attempts)
      then some (
          log_transition (env.link 2)
            (log_entry tx.id (some TxStatus.submitted) TxStatus.failed stuck_detector_actor
              max_gas_bumps_exceeded)
            (run (env.link 1)
              (mark_failed tx.id max_retries_exceeded (codes "max gas bumps exceeded")
                (env.clock 1))
              w))
      else bump tx.nonce attempts w

  unfoldable pub check_one : World → Option World
  unfolding handle
  check_one w = handle (guarded (env.link 0) (ok (get_attempts_by_transaction_id tx.id w.db))) w

-- The loop of `check`: each transaction has its own answers.
unfoldable pub check_all : StuckDetector → (ℕ → Env) → List Transaction → World → Option World
check_all sd envs [] w = some w
check_all sd envs (tx ∷ txs) w = elim (check_one sd (envs tx.id) tx w) [
  | none ↦ none
  | some w' ↦ check_all sd envs txs w'
]

-- `check`, at the time `now`.
unfoldable pub check : StuckDetector → Option Text → (ℕ → Env) → ℕ → World → Option World
unfolding check_all check_one
check sd (some e) envs now w = some w
check sd none envs now w =
    check_all sd envs (get_stuck_transactions sd.chain.chain_id (now - sd.stuck_threshold) w.db) w
