-- ===== src/Examples/Polling.antt =====
-- One poll of the receipts.
use evm_tx_sender.Prelude.{◌≡◌, ◌↔◌, refl, inl, true, none, some, ok, [], ◌∷◌, In, arith}
use evm_tx_sender.Domain.{TxStatus}
use evm_tx_sender.Repo.{find_tx}
use evm_tx_sender.Worker.{World}
use evm_tx_sender.Receipts.{
  EventLog, is_ready, verify_erc20_transfer, included_page, poll_included, poll_submitted,
  mark_attempt_confirmed,
}
use evm_tx_sender.Receipts.Transfers.{IsTransfer, verify_erc20_transfer_iff}
use evm_tx_sender.Receipts.Depth.{lagging_node_is_ready}
use evm_tx_sender.Receipts.Paging.{Ends, AnswersAsked, poll_included-Ends, poll_submitted-Ends}
use evm_tx_sender.Receipts.Attempts.{IsSettled, mark_attempt_confirmed_settles}
use evm_tx_sender.Receipts.Waiting.{StandsOr, ReadyTx, Leaves, included_page_waits}
use evm_tx_sender.Examples.{payment, first_try, state, poller, receipt, poll_answers}

lagging_node_is_ready_example : is_ready poller 88 (some 90) ≡ true
lagging_node_is_ready_example =
    lagging_node_is_ready poller 88 90 (omega arith) (omega arith) (omega arith)

verify_erc20_transfer_iff_example :
    (verify_erc20_transfer poller 4 receipt (payment 1 TxStatus.submitted (some 2)) ≡ true) ↔ (
      (log : EventLog) × In log receipt.logs
      × IsTransfer poller 4 (payment 1 TxStatus.submitted (some 2)) log)
verify_erc20_transfer_iff_example =
    verify_erc20_transfer_iff poller 4 (payment 1 TxStatus.submitted (some 2)) receipt

abbrev submitted_state : World
submitted_state = state TxStatus.submitted (some 2)

abbrev included_state : World
included_state = state TxStatus.included (some 2)

poll_included-Ends_example : Ends (poll_included poller poll_answers (ok 110) included_state)
poll_included-Ends_example = poll_included-Ends poller poll_answers (ok 110) included_state

answers_asked : AnswersAsked poll_answers
answers_asked n [] = tt
answers_asked n (h ∷ hs) = (inl refl, tt)

poll_submitted-Ends_example : Ends (poll_submitted poller poll_answers submitted_state)
poll_submitted-Ends_example = poll_submitted-Ends poller poll_answers answers_asked submitted_state

mark_attempt_confirmed_settles_example :
    IsSettled
      (some 77)
      (first_try 21 1)
      (mark_attempt_confirmed none (λ id. none) 1 (some 77) submitted_state).db.attempts
mark_attempt_confirmed_settles_example =
    mark_attempt_confirmed_settles (λ id. none) 1 (some 77) submitted_state (first_try 21 1)
      (λ id. refl) (λ id. ground arith) (inl refl) refl

included_page_waits_example :
    Leaves
      (StandsOr
        (ReadyTx poller 110 (payment 1 TxStatus.included (some 2) ∷ []) 1)
        1
        TxStatus.included)
      (included_page poller poll_answers 110 0
        (payment 1 TxStatus.included (some 2) ∷ [])
        included_state)
unfolding find_tx
included_page_waits_example =
    included_page_waits poller poll_answers 110 1 TxStatus.included (omega arith) 0
      (payment 1 TxStatus.included (some 2) ∷ []) included_state
      (payment 1 TxStatus.included (some 2)) refl refl
