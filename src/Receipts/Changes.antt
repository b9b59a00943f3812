-- ===== src/Receipts/Changes.antt =====
-- How a row can stand behind the work on one receipt, or on one included transaction.
use evm_tx_sender.Prelude.{ℕ, inl, inr, refl, Option, none, some, ltb, ◌==◌, Bool-cases, arith}
use evm_tx_sender.Domain.{Transaction, TxStatus, TxReceipt, TxStateLog}
use evm_tx_sender.Repo.{
  set_included, set_confirmed, set_reverted, set_back_to_submitted, mark_included, mark_confirmed,
  mark_reverted, revert_to_submitted,
}
use evm_tx_sender.Worker.{World, Env}
use evm_tx_sender.Receipts.{
  ReceiptPoller, Receipt, Answers, lacks_transfer, is_hash, mark, nothing_else,
  mark_attempt_confirmed, rebroadcast_after_reorg, apply_receipt, compare_block, check_included,
}
use evm_tx_sender.Receipts.Moves.{
  Change, KeepsRows, mark-Change, confirming-KeepsRows, resending-KeepsRows, AfterReceipt,
  included_first, confirmed_at_once, reverted_on_chain, transfer_missing, AfterDepth,
  gone_from_chain, same_block, other_block, set_included-Fills, set_confirmed-Fills,
  set_reverted-Fills, set_back_to_submitted-Clears, hash_same, hash_other,
}

module _ (env : Env) (i : ℕ) (tx_id now : ℕ) (receipt : TxReceipt) (entry : TxStateLog)
    (rest : World → World) (Allowed : (Transaction → Transaction) → TxStatus → Type 0) (w : World)
    (keeps : KeepsRows rest) where
  mark_included-Change :
      Allowed (set_included receipt now) TxStatus.included
      → Change env tx_id Allowed w (mark env i (mark_included tx_id receipt now) entry rest w)
  unfolding mark_included
  mark_included-Change allowed =
      mark-Change env i _ entry rest tx_id Allowed (set_included receipt now) TxStatus.included w
        keeps (λ t. unfold set_included in refl) (λ t. unfold set_included in refl) allowed _ refl
        refl

  mark_confirmed-Change :
      Allowed (set_confirmed receipt now) TxStatus.confirmed
      → Change env tx_id Allowed w (mark env i (mark_confirmed tx_id receipt now) entry rest w)
  unfolding mark_confirmed
  mark_confirmed-Change allowed =
      mark-Change env i _ entry rest tx_id Allowed (set_confirmed receipt now) TxStatus.confirmed w
        keeps (λ t. unfold set_confirmed in refl) (λ t. unfold set_confirmed in refl) allowed _ refl
        refl

  mark_reverted-Change :
      Allowed (set_reverted receipt now) TxStatus.reverted
      → Change env tx_id Allowed w (mark env i (mark_reverted tx_id receipt now) entry rest w)
  unfolding mark_reverted
  mark_reverted-Change allowed =
      mark-Change env i _ entry rest tx_id Allowed (set_reverted receipt now) TxStatus.reverted w
        keeps (λ t. unfold set_reverted in refl) (λ t. unfold set_reverted in refl) allowed _ refl
        refl

module _ (env : Env) (i : ℕ) (tx_id now : ℕ) (entry : TxStateLog) (rest : World → World)
    (Allowed : (Transaction → Transaction) → TxStatus → Type 0) (w : World)
    (keeps : KeepsRows rest) where
  revert_to_submitted-Change :
      Allowed (set_back_to_submitted now) TxStatus.submitted
      → Change env tx_id Allowed w (mark env i (revert_to_submitted tx_id now) entry rest w)
  unfolding revert_to_submitted
  revert_to_submitted-Change allowed =
      mark-Change env i _ entry rest tx_id Allowed (set_back_to_submitted now) TxStatus.submitted w
        keeps (λ t. unfold set_back_to_submitted in refl)
        (λ t. unfold set_back_to_submitted in refl) allowed _ refl refl

module _ (rp : ReceiptPoller) (answers : Answers) (tx : Transaction) (w : World) where
  pub apply_receipt-Change :
      (receipt : Receipt)
      → Change answers.env tx.id
          (AfterReceipt rp tx receipt)
          w
          (apply_receipt rp answers tx receipt w)
  unfolding apply_receipt
  apply_receipt-Change receipt = elim (Bool-cases (receipt.status == 1)) [
    | inr bad ↦ rw bad (
        mark_reverted-Change answers.env 7 tx.id _ _ _ nothing_else _ w (λ v. refl)
          (reverted_on_chain (ground arith) (set_reverted-Fills rp tx receipt _)))
    | inl good ↦ elim (Bool-cases (lacks_transfer rp tx.token_contract receipt tx)) [
      | inl lacks ↦
          rw (good, lacks)
            (mark_reverted-Change answers.env 0 tx.id _ _ _ nothing_else _ w (λ v. refl)
              (transfer_missing lacks (set_reverted-Fills rp tx receipt _)))
      | inr has ↦ elim (Bool-cases (ltb 0 rp.confirmation_blocks)) [
        | inl waits ↦
            rw (good, has, waits)
              (mark_included-Change answers.env 2 tx.id _ _ _ nothing_else _ w (λ v. refl)
                (included_first (ground arith) has (ground arith)
                  (set_included-Fills rp tx receipt _)))
        | inr direct ↦
            rw (good, has, direct)
              (mark_confirmed-Change answers.env 4 tx.id _ _ _
                (mark_attempt_confirmed (answers.env.link 6) answers.attempt_link tx.id
                  tx.final_tx_hash)
                _ w
                (confirming-KeepsRows (answers.env.link 6) answers.attempt_link tx.id
                  tx.final_tx_hash)
                (confirmed_at_once (ground arith) has (ground arith)
                  (set_confirmed-Fills rp tx receipt _)))
      ]
    ]
  ]

  pub check_included-Change :
      (current block : ℕ) (receipt : Option Receipt)
      → Change answers.env tx.id
          (AfterDepth tx receipt)
          w
          (check_included rp answers tx current block receipt w)
  unfolding check_included compare_block
  check_included-Change current block none =
      revert_to_submitted-Change answers.env 0 tx.id _ _
        (rebroadcast_after_reorg rp (answers.env.link 2) tx) _ w
        (resending-KeepsRows rp (answers.env.link 2) tx)
        (gone_from_chain _ (set_back_to_submitted-Clears _))
  check_included-Change current block (some receipt) =
      elim (Bool-cases (is_hash tx.block_hash receipt.block_hash)) [
        | inl same ↦ rw same (
            mark_confirmed-Change answers.env 3 tx.id _ _ _
              (mark_attempt_confirmed (answers.env.link 5) answers.attempt_link tx.id
                tx.final_tx_hash)
              _ w
              (confirming-KeepsRows (answers.env.link 5) answers.attempt_link tx.id
                tx.final_tx_hash)
              (same_block receipt _ (hash_same tx.block_hash receipt.block_hash same)
                (set_confirmed-Fills rp tx receipt _)))
        | inr other ↦ rw other (
            mark_included-Change answers.env 6 tx.id _ _ _ nothing_else _ w (λ v. refl)
              (other_block receipt _ (hash_other tx.block_hash receipt.block_hash other)
                (set_included-Fills rp tx receipt _)))
      ]
