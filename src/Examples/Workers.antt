-- ===== src/Examples/Workers.antt =====
-- One pass of the pipeline and of the detector.
use evm_tx_sender.Prelude.{◌≤◌, refl, inr, none, some, All, arith}
use evm_tx_sender.Domain.{TxStatus, api_actor}
use evm_tx_sender.Repo.{find_tx, get_stuck_transactions}
use evm_tx_sender.Worker.{World}
use evm_tx_sender.Worker.Ahead.{WrittenAhead}
use evm_tx_sender.Pipeline.Turn.{TurnOutcome, turn_settles}
use evm_tx_sender.Pipeline.{turn, process_tx}
use evm_tx_sender.Pipeline.Outcome.{Settled}
use evm_tx_sender.Pipeline.Fate.{process_tx_settles}
use evm_tx_sender.Pipeline.Recorded.{process_tx-WrittenAhead}
use evm_tx_sender.Stuck.{check}
use evm_tx_sender.Stuck.Steps.{Survives}
use evm_tx_sender.Stuck.Runs.{IsBacked, Steps, attempts_of, check-Steps}
use evm_tx_sender.Stuck.Safety.{
  RowFollows, check-WrittenAhead, check_limits_attempts, check_keeps_transfers,
}
use evm_tx_sender.Examples.{payment, replies, calm, pipeline, detector, state}

process_tx_settles_example :
    Settled pipeline calm (payment 1 TxStatus.pending none) replies (state TxStatus.pending none) (
      process_tx pipeline calm
        (payment 1 TxStatus.pending none)
        api_actor
        replies
        (state TxStatus.pending none))
unfolding find_tx
process_tx_settles_example =
    process_tx_settles pipeline calm (payment 1 TxStatus.pending none) api_actor replies
      (state TxStatus.pending none) (payment 1 TxStatus.pending none) refl refl

process_tx-WrittenAhead_example : WrittenAhead (
    process_tx pipeline calm
      (payment 1 TxStatus.pending none)
      api_actor
      replies
      (state TxStatus.pending none))
process_tx-WrittenAhead_example =
    process_tx-WrittenAhead pipeline calm (payment 1 TxStatus.pending none) api_actor replies
      (state TxStatus.pending none) (refl, tt)

abbrev stuck : World
stuck = state TxStatus.submitted (some 2)

stuck-IsBacked : All (IsBacked stuck) (get_stuck_transactions 1 990 stuck.db)
unfolding get_stuck_transactions
stuck-IsBacked = (inr (omega arith), tt)

check-Steps_example :
    Survives
      (Steps detector (get_stuck_transactions 1 990 stuck.db) stuck)
      (check detector none (λ id. calm) 1000 stuck)
check-Steps_example = check-Steps detector none (λ id. calm) 1000 stuck stuck-IsBacked

check-WrittenAhead_example : Survives WrittenAhead (check detector none (λ id. calm) 1000 stuck)
check-WrittenAhead_example =
    check-WrittenAhead detector none (λ id. calm) 1000 stuck stuck-IsBacked (refl, tt)

check_limits_attempts_example :
    Survives (λ w'. attempts_of 1 w' ≤ 6) (check detector none (λ id. calm) 1000 stuck)
check_limits_attempts_example =
    check_limits_attempts detector none (λ id. calm) 1000 stuck stuck-IsBacked 1 (omega arith)

check_keeps_transfers_example :
    Survives
      (RowFollows 1 (payment 1 TxStatus.submitted (some 2)))
      (check detector none (λ id. calm) 1000 stuck)
unfolding find_tx
check_keeps_transfers_example =
    check_keeps_transfers detector none (λ id. calm) 1000 stuck stuck-IsBacked 1
      (payment 1 TxStatus.submitted (some 2)) refl

turn_settles_example :
    TurnOutcome pipeline calm replies none 999
      (state TxStatus.queued none)
      (turn pipeline calm replies none 999 (state TxStatus.queued none))
turn_settles_example =
    turn_settles pipeline calm replies none 999 (state TxStatus.queued none) (λ id. ground arith)
