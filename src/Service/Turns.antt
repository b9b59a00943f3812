-- ===== src/Service/Turns.antt =====
-- A turn of a pipeline makes writes of repo.go only.
use evm_tx_sender.Prelude.{
  ℕ, ◌≤◌, ◌≡◌, refl, ap, ◌∙◌, Text, Option, none, some, count_if, true, arith,
}
use evm_tx_sender.Domain.{Transaction, Actor, pipeline_actor}
use evm_tx_sender.Gas.{GasReplies}
use evm_tx_sender.Repo.{Db, has_id, claim_next_queued, is_queued_for, set_claimed}
use evm_tx_sender.Repo.Nonces.History.{claim, assign, submit, fail, attempt, log}
use evm_tx_sender.Repo.Queue.{Claimed, ClaimOutcome, claim_takes_oldest}
use evm_tx_sender.Worker.{World, Env}
use evm_tx_sender.Pipeline.{Pipeline, on_claimed, turn}
use evm_tx_sender.Pipeline.Turn.{Claimed-is_stored}
use evm_tx_sender.Service.Calls.{SafeWrite, SafeWrites, no_writes, SafeWrites-trans, one_write}
use evm_tx_sender.Service.Closed.{Closed, process_tx_stays}

-- The writes of repo.go are such a relation.
SafeWrites-Closed : Closed SafeWrites
SafeWrites-Closed = record {
  same = λ db. no_writes;
  trans = SafeWrites-trans;
  log = λ entry db db' e. one_write (log entry e, tt);
  submit = λ id h now db db' e. one_write (submit id h now e, tt);
  fail = λ id code reason now db db' e. one_write (fail id code reason now e, tt);
  attempt = λ a db db' e. one_write (attempt a e, tt);
  assign = λ id now n t db db' row e. one_write (assign id now n t row e, tt);
}

queued_pair :
    (s c : ℕ) (t : Transaction) → is_queued_for s c t ≡ true → (t.sender ≡ s) × (t.chain_id ≡ c)
queued_pair s c t h = ground arith

pub Claimed-pair :
    (s c now : ℕ) (a : Actor) (db db' : Db) (tx : Transaction)
    → Claimed s c now a db db' tx
    → (tx.sender ≡ s) × (tx.chain_id ≡ c)
unfolding set_claimed
Claimed-pair s c now a db db' tx k =
    let pair = queued_pair s c k.taken k.was_queued in
    (
      ap (λ (t : Transaction). t.sender) k.returned ∙ pair.0,
      ap (λ (t : Transaction). t.chain_id) k.returned ∙ pair.1,
    )

-- A turn on tables with unique ids, however it ends, makes writes of repo.go only, and assigns a
-- nonce for the sender and the chain of the transaction.
pub turn-Writes :
    (p : Pipeline) (env : Env) (replies : GasReplies) (link : Option Text) (now : ℕ) (w : World)
    → ((id : ℕ) → count_if (has_id id) w.db.transactions ≤ 1)
    → SafeWrites w.db (turn p env replies link now w).db
unfolding turn
turn-Writes p env replies (some e) now w ids_unique = no_writes
turn-Writes p env replies none now w ids_unique =
    go (claim_next_queued p.sender p.chain.chain_id actor now w.db)
      (claim_takes_oldest p.sender p.chain.chain_id now actor w.db ids_unique)
      (claim p.sender p.chain.chain_id actor now refl, tt)
  where
    actor : Actor
    actor = pipeline_actor p.sender p.chain.chain_id

    go :
        (out : Option Transaction × Db)
        → ClaimOutcome p.sender p.chain.chain_id now actor w.db out
        → SafeWrite w.db out.1
        → SafeWrites w.db (on_claimed p env replies actor out w).db
    go (none, db) k write = one_write write
    go (some tx, db) k write =
        let pair = Claimed-pair p.sender p.chain.chain_id now actor w.db db tx k in
        SafeWrites-trans (one_write write) (
          process_tx_stays SafeWrites SafeWrites-Closed p env tx actor replies
            (record w { db = db }) tx
            (Claimed-is_stored p.sender p.chain.chain_id now actor w.db db tx k) pair.0 pair.1)
