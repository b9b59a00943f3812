-- ===== src/Service/Runs.antt =====
-- The whole program as a sequence of passes, in any order.
use evm_tx_sender.Prelude.{
  Ensures, ok, err, refl, ◌≤◌, ℕ, ◌≡◌, subst, sym, Text, Option, some, Result, List, [], ◌∷◌, All,
}
use evm_tx_sender.Gas.{GasReplies}
use evm_tx_sender.Repo.{Db, reset_pending_to_queued}
use evm_tx_sender.Repo.Nonces.Invariant.{NonceInv, holders}
use evm_tx_sender.Repo.Nonces.History.{
  Writes, nothing, followed, AreSafe, Write-NonceInv, Writes-NonceInv, empty_db,
}
use evm_tx_sender.Worker.{World, Env}
use evm_tx_sender.Pipeline.{Pipeline, turn}
use evm_tx_sender.Stuck.{StuckDetector, check}
use evm_tx_sender.Receipts.{ReceiptPoller, PollAnswers, finished, poll_submitted, poll_included}
use evm_tx_sender.Manager.{Pair, init_nonces}
use evm_tx_sender.Manager.Start.{PendingIsFree, init_nonces-NonceInv}
use evm_tx_sender.Transfer.{TransferHandler, TransferRequest, RequestAnswers}
use evm_tx_sender.Transfer
use evm_tx_sender.Service.Calls.{SafeWrites}
use evm_tx_sender.Service.Turns.{turn-Writes}
use evm_tx_sender.Service.Workers.{IfAny, Since, check-Writes}
use evm_tx_sender.Service.Loops.{AfterPoll, poll_submitted-Writes, poll_included-Writes}
use evm_tx_sender.Service.Requests.{create-Writes}

-- One pass of a part of the program, with whatever the database, the nodes, the signer and the
-- caller answer; a request for any transfer, a turn of any pipeline, and so on.
pub data Step (w w' : World) : Type 0 where
  request :
      (h : TransferHandler) (req : TransferRequest) (answers : RequestAnswers)
      → w' ≡ record w { db = (Transfer.create h req answers w.db).1 }
      → Step w w'
  turns :
      (p : Pipeline) (env : Env) (replies : GasReplies) (link : Option Text) (now : ℕ)
      → w' ≡ turn p env replies link now w
      → Step w w'
  polls_submitted :
      (rp : ReceiptPoller) (all : PollAnswers) → poll_submitted rp all w ≡ finished w' → Step w w'
  polls_included :
      (rp : ReceiptPoller) (all : PollAnswers) (current : Result Text ℕ)
      → poll_included rp all current w ≡ finished w'
      → Step w w'
  checks :
      (sd : StuckDetector) (link : Option Text) (envs : ℕ → Env) (now : ℕ)
      → check sd link envs now w ≡ some w'
      → Step w w'

pub data Run (w : World) : World → Type 0 where
  idle : Run w w
  then_step : {w' w'' : World} → Run w w' → Step w' w'' → Run w w''

Writes-keep : {db db' : Db} → NonceInv db → (ws : Writes db db') → AreSafe ws → NonceInv db'
Writes-keep inv nothing safe = inv
Writes-keep inv (followed ws w) safe = Write-NonceInv (Writes-keep inv ws safe.0) w safe.1

pub keeps : {db db' : Db} → NonceInv db → SafeWrites db db' → NonceInv db'
keeps inv (ws, safe) = Writes-keep inv ws safe

-- Each pass keeps the invariant of the nonces.
Step-NonceInv : {w w' : World} → NonceInv w.db → Step w w' → NonceInv w'.db
Step-NonceInv {w} inv (request h req answers e) =
    subst (λ (u : World). NonceInv u.db) (sym e) (keeps inv (create-Writes h req answers w.db))
Step-NonceInv {w} inv (turns p env replies link now e) =
    subst (λ (u : World). NonceInv u.db) (sym e)
      (keeps inv (turn-Writes p env replies link now w inv.ids_unique))
Step-NonceInv {w} inv (polls_submitted rp all e) =
    keeps inv (subst (AfterPoll (Since w)) e (poll_submitted-Writes rp all w))
Step-NonceInv {w} inv (polls_included rp all current e) =
    keeps inv (subst (AfterPoll (Since w)) e (poll_included-Writes rp all current w))
Step-NonceInv {w} inv (checks sd link envs now e) =
    keeps inv (subst (IfAny (Since w)) e (check-Writes sd link envs now w))

abbrev pub empty_world : World
empty_world = record { db = empty_db; sent = [] }

-- The first start of the service, with whatever the nodes and the database answer.
abbrev pub first_start : Option Text → ℕ → List Pair → World
first_start link now pairs = record empty_world { db = (init_nonces link now pairs empty_db).0 }

runs_keep : {w w' : World} → NonceInv w.db → Run w w' → NonceInv w'.db
runs_keep inv idle = inv
runs_keep inv (then_step run step) = Step-NonceInv (runs_keep inv run) step

nothing_held :
    (now : ℕ) (pairs : List Pair)
    → All (PendingIsFree (reset_pending_to_queued now empty_db).1.transactions) pairs
unfolding reset_pending_to_queued
nothing_held now [] = tt
nothing_held now (pair ∷ pairs) = (node pair.answers.pending_nonce_at, nothing_held now pairs)
  where
    node :
        (r : Result Text ℕ)
        → Ensures (λ n. (m : ℕ) → n ≤ m → holders pair.sender pair.chain_id m [] ≡ 0) r
    node (ok n) = λ m h. refl
    node (err e) = tt

-- From the first start of the service on empty tables on, and until it is started again, after any
-- sequence of requests, turns of pipelines, polls and checks of stuck detectors, for any senders and
-- chains and whatever the database, the nodes, the signer and the callers answer, no two
-- transactions of one sender on one chain hold the same nonce, every nonce held is below the
-- cursor, and no two transactions share an id.
pub Run-NonceInv :
    (link : Option Text) (now : ℕ) (pairs : List Pair) {w : World}
    → Run (first_start link now pairs) w
    → NonceInv w.db
Run-NonceInv link now pairs run =
    runs_keep
      (init_nonces-NonceInv link now pairs empty_db (Writes-NonceInv nothing tt)
        (nothing_held now pairs))
      run
