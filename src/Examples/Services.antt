-- ===== src/Examples/Services.antt =====
-- The endpoints of a chain, and the start.
use evm_tx_sender.Prelude.{
  ℕ, Text, ◌≡◌, ◌↔◌, refl, true, false, Option, none, some, ok, List, [], ◌∷◌, codes, In, ◌==◌,
  if◌then◌else◌,
}
use evm_tx_sender.Domain.{TxStatus}
use evm_tx_sender.Repo.{get_nonce_cursor, set_nonce_cursor}
use evm_tx_sender.Repo.Nonces.Invariant.{next_of}
use evm_tx_sender.Client.{Endpoint, send_transaction}
use evm_tx_sender.Client.Broadcast.{CountsAsSuccess, send_transaction_iff}
use evm_tx_sender.Manager.{init_nonce_for_sender}
use evm_tx_sender.Manager.Start.{init_nonce_for_sender_aligns}
use evm_tx_sender.Examples.{pair, tables}

abbrev one_down : List Endpoint
one_down = record { client = 1; healthy = false } ∷ record { client = 2; healthy = true } ∷ []

-- Only the second endpoint accepts.
abbrev second_accepts : ℕ → Option Text
second_accepts client = if client == 2 then none else some (codes "refused")

send_transaction_iff_example :
    (send_transaction second_accepts one_down ≡ none)
    ↔ ((ep : Endpoint) × In ep one_down × CountsAsSuccess second_accepts ep)
send_transaction_iff_example = send_transaction_iff second_accepts one_down

init_nonce_for_sender_aligns_example :
    (n : ℕ) × (pair.answers.pending_nonce_at ≡ ok n)
    × (next_of (get_nonce_cursor 9 1 (init_nonce_for_sender pair (tables TxStatus.pending none)).0)
        ≡ n)
unfolding init_nonce_for_sender get_nonce_cursor set_nonce_cursor
init_nonce_for_sender_aligns_example =
    init_nonce_for_sender_aligns pair (tables TxStatus.pending none) refl
