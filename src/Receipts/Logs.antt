-- ===== src/Receipts/Logs.antt =====
-- Receipts as go-ethereum gives them, and `verifyERC20Transfer`.
use evm_tx_sender.Prelude.{
  ℕ, ◌%◌, ◌^◌, Text, Bool, true, false, ◌&&◌, Option, none, some, List, [], ◌∷◌, ◌==◌,
  if◌then◌else◌,
}
use evm_tx_sender.Domain.{Transaction, TxReceipt}

pub record EventLog : Type 0 where
  pub address : ℕ
  pub topics : List ℕ

-- `types.Receipt`; the block number of a mined receipt is never nil.
pub record Receipt : Type 0 where
  pub block_number : ℕ
  pub block_hash : ℕ
  pub gas_used : ℕ
  pub effective_gas_price : ℕ
  pub status : ℕ
  pub logs : List EventLog

-- `ReceiptPoller`. What the libraries compute is an argument: the JSON of a receipt, in the form that
-- JSONB keeps of it, the hash of
-- the event's signature, and the hash of a decoded raw transaction.
pub record ReceiptPoller : Type 0 where
  pub chain_id : ℕ
  pub confirmation_blocks : ℕ
  pub receipt_chunk_size : ℕ
  pub marshal_receipt : Receipt → Text
  pub transfer_event_sig : ℕ
  pub unmarshal_tx : Text → Option ℕ

abbrev pub default_receipt_chunk_size : ℕ
default_receipt_chunk_size = 50

-- `NewReceiptPoller`: a chunk size of zero, or less, is replaced.
unfoldable pub chunk_size : ℕ → ℕ
chunk_size configured = if configured == 0 then default_receipt_chunk_size else configured

-- The `TxReceipt` that the handlers build: `Uint64` and `uint8` keep the low bits.
unfoldable pub to_tx_receipt : ReceiptPoller → Transaction → Receipt → TxReceipt
to_tx_receipt rp tx r = record {
  tx_hash = tx.final_tx_hash;
  block_number = r.block_number % 2 ^ 64;
  block_hash = r.block_hash;
  gas_used = r.gas_used;
  effective_gas_price = r.effective_gas_price;
  status = r.status % 2 ^ 8;
  receipt_json = rp.marshal_receipt r;
}

-- The three topics that are looked at, of a list of at least three.
abbrev pub topics_match : ℕ → ℕ → ℕ → List ℕ → Bool
topics_match sig sender recipient (t0 ∷ t1 ∷ t2 ∷ _) =
    t0 == sig && (t1 == sender && t2 == recipient)
topics_match sig sender recipient _ = false

-- The loop of `verifyERC20Transfer`. An address as a topic is the same number.
unfoldable pub find_transfer : ReceiptPoller → ℕ → Transaction → List EventLog → Bool
find_transfer rp contract tx [] = false
find_transfer rp contract tx (log ∷ logs) =
    if log.address == contract
      && topics_match rp.transfer_event_sig tx.sender tx.transfer_recipient log.topics
    then true
    else find_transfer rp contract tx logs

unfoldable pub verify_erc20_transfer : ReceiptPoller → ℕ → Receipt → Transaction → Bool
unfolding find_transfer
verify_erc20_transfer rp contract receipt tx = find_transfer rp contract tx receipt.logs

-- `tx.TokenContract != "" && !rp.verifyERC20Transfer(receipt, tx)`
abbrev pub lacks_transfer : ReceiptPoller → Option ℕ → Receipt → Transaction → Bool
lacks_transfer rp none receipt tx = false
lacks_transfer rp (some contract) receipt tx =
    if verify_erc20_transfer rp contract receipt tx then false else true
