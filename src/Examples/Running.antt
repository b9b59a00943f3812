-- ===== src/Examples/Running.antt =====
-- Passes of the whole program.
use evm_tx_sender.Prelude.{false, List, ◌≡◌, refl, ◌+◌, none, [], ◌∷◌, arith}
use evm_tx_sender.Domain.{TxStatus}
use evm_tx_sender.Repo.{count_queued_transactions}
use evm_tx_sender.Repo.Nonces.Invariant.{NonceInv}
use evm_tx_sender.Worker.{World}
use evm_tx_sender.Pipeline.{turn}
use evm_tx_sender.Transfer.{create}
use evm_tx_sender.Manager.Launch.{Running}
use evm_tx_sender.Service.Runs.{Run, idle, then_step, request, turns, first_start, Run-NonceInv}
use evm_tx_sender.Service.Notified.{IsWoken, create_and_notify, create_and_notify-IsWoken}
use evm_tx_sender.Repo.Nonces.History.{empty_db}
use evm_tx_sender.Service.Queues
use evm_tx_sender.Service.Queues.{turns_drain}
use evm_tx_sender.Examples
use evm_tx_sender.Examples.{pair, state, pipeline, calm, replies, chain, handler, first}
use evm_tx_sender.Examples.Tables.{tables_have_inv}

-- The state behind the first start, behind an accepted request, and behind the turn that sends it.
abbrev started : World
started = first_start none 5 (pair ∷ [])

abbrev asked : World
asked = record started { db = (create handler Examples.request first started.db).1 }

abbrev worked : World
worked = turn pipeline calm replies none 20 asked

two_passes : Run started worked
two_passes =
    then_step (then_step idle (request handler Examples.request first refl))
      (turns pipeline calm replies none 20 refl)

Run-NonceInv_example : NonceInv worked.db
Run-NonceInv_example = Run-NonceInv none 5 (pair ∷ []) two_passes

turns_drain_example :
    count_queued_transactions 9 1
      (Queues.turns pipeline
        (λ n. calm)
        (λ n. replies)
        (λ n. 20 + n)
        2
        (state TxStatus.queued none)).db
    ≡ 0
unfolding count_queued_transactions
turns_drain_example =
    turns_drain pipeline (λ n. calm) (λ n. replies) (λ n. 20 + n) 2 (state TxStatus.queued none)
      (tables_have_inv TxStatus.queued) (omega arith)

abbrev running : List Running
running = record { sender = 9; chain = chain; notify = false } ∷ []

create_and_notify-IsWoken_example :
    IsWoken empty_db running (create_and_notify handler Examples.request first empty_db running)
create_and_notify-IsWoken_example =
    create_and_notify-IsWoken handler Examples.request first empty_db running (λ s. ground arith)
      (omega arith, tt)
