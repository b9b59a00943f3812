-- ===== src/Pipeline/Turn.antt =====
-- A whole turn of the loop of `Run`.
use evm_tx_sender.Prelude.{ℕ, ◌≤◌, Text, ◌≡◌, refl, ap, ◌∙◌, Option, none, some, count_if}
use evm_tx_sender.Domain.{Transaction, Actor, pipeline_actor}
use evm_tx_sender.Gas.{GasReplies}
use evm_tx_sender.Repo.{
  Db, has_id, find_tx, set_claimed, claim_next_queued, count_queued_transactions,
}
use evm_tx_sender.Repo.Queue.{Claimed, ClaimOutcome, claim_takes_oldest}
use evm_tx_sender.Worker.{World, Env}
use evm_tx_sender.Pipeline.{Pipeline, on_claimed, turn}
use evm_tx_sender.Pipeline.Outcome.{Settled}
use evm_tx_sender.Pipeline.Fate.{process_tx_settles}

-- How a turn can end.
pub data TurnOutcome (p : Pipeline) (env : Env) (replies : GasReplies) (link : Option Text)
    (now : ℕ) (w w' : World) : Type 0 where
  lost_claim : (e : Text) → link ≡ some e → w' ≡ w → TurnOutcome p env replies link now w w'
  empty_queue :
      link ≡ none
      → count_queued_transactions p.sender p.chain.chain_id w.db ≡ 0
      → w'.db ≡ w.db
      → w'.sent ≡ w.sent
      → TurnOutcome p env replies link now w w'
  worked :
      (tx : Transaction) (db : Db)
      → link ≡ none
      → Claimed p.sender p.chain.chain_id now (pipeline_actor p.sender p.chain.chain_id) w.db db tx
      → Settled p env tx replies (record w { db = db }) w'
      → TurnOutcome p env replies link now w w'

-- The claimed row is stored under its own id.
pub Claimed-is_stored :
    (s c now : ℕ) (a : Actor) (db db' : Db) (tx : Transaction)
    → Claimed s c now a db db' tx
    → find_tx tx.id db'.transactions ≡ some tx
unfolding set_claimed
Claimed-is_stored s c now a db db' tx k =
    let same : tx.id ≡ k.taken.id = ap (λ t. t.id) k.returned in
    ap (λ i. find_tx i db'.transactions) same ∙ k.is_stored

-- On tables with unique ids, and however the database, the node and the signer answer, a turn of a
-- pipeline changes nothing if the claim failed, or if it did not fail and the queue of the pair is
-- empty. Else it takes a queued transaction of the pair that no other of the queue is older than,
-- and settles it: no other row is touched, and its row ends failed for one of the four reasons of
-- `GivesUp`, or submitted with a stored attempt that a node accepted, or pending where the call that
-- stores the attempt or writes the final status failed, or where the tables had an attempt that
-- clashes with it.
pub turn_settles :
    (p : Pipeline) (env : Env) (replies : GasReplies) (link : Option Text) (now : ℕ) (w : World)
    → ((id : ℕ) → count_if (has_id id) w.db.transactions ≤ 1)
    → TurnOutcome p env replies link now w (turn p env replies link now w)
unfolding turn
turn_settles p env replies (some e) now w ids_unique = lost_claim e refl refl
turn_settles p env replies none now w ids_unique =
    go (claim_next_queued p.sender p.chain.chain_id actor now w.db)
      (claim_takes_oldest p.sender p.chain.chain_id now actor w.db ids_unique)
  where
    actor : Actor
    actor = pipeline_actor p.sender p.chain.chain_id

    go :
        (out : Option Transaction × Db)
        → ClaimOutcome p.sender p.chain.chain_id now actor w.db out
        → TurnOutcome p env replies none now w (on_claimed p env replies actor out w)
    go (none, db) k = empty_queue refl k.0 k.1 refl
    go (some tx, db) k = worked tx db refl k (
        process_tx_settles p env tx actor replies (record w { db = db }) tx
          (Claimed-is_stored p.sender p.chain.chain_id now actor w.db db tx k) k.is_pending_now)
