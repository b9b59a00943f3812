-- ===== src/Examples/Data.antt =====
-- Small concrete data: a transaction, a chain, a pipeline, the poller and the detector.
use evm_tx_sender.Prelude.{
  ℕ, ◌+◌, ◌*◌, ◌^◌, true, pos, Option, none, some, ok, List, [], ◌∷◌, codes, text_eq, ◌==◌,
  if◌then◌else◌,
}
use evm_tx_sender.Domain.{
  Transaction, TxStatus, Priority, GasParams, TxAttempt, attempt_broadcast, ChainConfig,
}
use evm_tx_sender.Gas.{GasReplies}
use evm_tx_sender.Manager.{Pair}
use evm_tx_sender.Transfer.{TransferRequest, TransferHandler, RequestAnswers}
use evm_tx_sender.Repo.{Db}
use evm_tx_sender.Worker.{World, Env, Signer}
use evm_tx_sender.Pipeline.{Pipeline}
use evm_tx_sender.Stuck.{StuckDetector}
use evm_tx_sender.Receipts.{ReceiptPoller, Receipt, Answers, PollAnswers}

-- A payment of 5 by the sender 9 on the chain 1.
abbrev pub payment : ℕ → TxStatus → Option ℕ → Transaction
payment id status nonce = record {
  id = id;
  idempotency_key = codes "k";
  chain_id = 1;
  sender = 9;
  to_address = 8;
  value = pos 5;
  payload = [];
  gas_limit = none;
  nonce = nonce;
  priority = Priority.normal;
  status = status;
  error_reason = [];
  error_code = none;
  final_tx_hash = some 77;
  block_number = some 90;
  block_hash = some 900;
  gas_used = none;
  effective_gas_price = none;
  receipt_status = none;
  receipt_data = [];
  confirmations = 0;
  transfer_token = codes "ETH";
  transfer_amount = codes "5";
  transfer_recipient = 8;
  token_contract = some 4;
  token_decimals = 18;
  metadata = [];
  created_at = 0;
  updated_at = 0;
  submitted_at = some 1;
  confirmed_at = none;
  claimed_by = none;
  claimed_at = none;
}

abbrev pub fees : GasParams
fees = record {
  gas_limit = 21000;
  max_fee_per_gas = some 300;
  max_priority_fee_per_gas = some 100;
  gas_price = some 200;
  tx_type = 2;
}

abbrev pub legacy_fees : GasParams
legacy_fees = record fees { tx_type = 0 }

abbrev pub first_try : ℕ → ℕ → TxAttempt
first_try id tx_id = record {
  id = id;
  transaction_id = tx_id;
  attempt_number = 1;
  tx_hash = 77;
  gas = fees;
  raw_tx = [];
  status = attempt_broadcast;
  error_reason = [];
  created_at = 0;
  confirmed_at = none;
}

abbrev pub chain : ChainConfig
chain = record {
  chain_id = 1;
  name = codes "main";
  rpc_endpoints = codes "a" ∷ [];
  block_time = 12 * 10 ^ 9;
  confirmation_blocks = 12;
  supports_eip1559 = true;
  scale_gas_limit = λ n. n + n;
  min_max_fee = none;
  max_max_fee = none;
  min_priority_fee = none;
  max_priority_fee = none;
  receipt_chunk_size = 50;
  stuck_threshold = 10;
  gas_bump_interval = 5;
  native_token_symbol = codes "ETH";
  native_token_decimals = 18;
  native_max_transfer = none;
  token_whitelist = [];
}

abbrev pub replies : GasReplies
replies = record {
  estimate_gas = ok 21000;
  latest_base_fee = ok 100;
  suggest_gas_tip_cap = ok 10;
  suggest_gas_price = ok 120;
}

abbrev pub signer : Signer
signer sender tx chain_id = ok (record { hash = 55; marshalled = ok (codes "raw") })

abbrev pub calm : Env
calm = record { link = λ i. none; clock = λ i. 1000 + i; node = λ i. none; new_id = 31 }

abbrev pub pipeline : Pipeline
pipeline = record { sender = 9; chain = chain; signer = signer }

abbrev pub detector : StuckDetector
detector = record { chain = chain; signer = signer; stuck_threshold = 10 }

abbrev pub tables : TxStatus → Option ℕ → Db
tables status nonce = record {
  transactions = payment 1 status nonce ∷ [];
  attempts = first_try 21 1 ∷ [];
  nonce_cursors = record { sender = 9; chain_id = 1; next_nonce = 3 } ∷ [];
  tx_state_log = [];
}

abbrev pub state : TxStatus → Option ℕ → World
state status nonce = record { db = tables status nonce; sent = 77 ∷ [] }

abbrev pub poller : ReceiptPoller
poller = record {
  chain_id = 1;
  confirmation_blocks = 12;
  receipt_chunk_size = 50;
  marshal_receipt = λ r. [];
  transfer_event_sig = 13;
  unmarshal_tx = λ raw. none;
}

abbrev pub receipt : Receipt
receipt = record {
  block_number = 90;
  block_hash = 900;
  gas_used = 21000;
  effective_gas_price = 100;
  status = 1;
  logs = record { address = 4; topics = 13 ∷ 9 ∷ 8 ∷ [] } ∷ [];
}

abbrev pub answers : Answers
answers = record { env = calm; attempt_link = λ id. none }

-- A node that has the receipt of the first hash that it is asked for.
abbrev pub answer_first : List ℕ → List (ℕ × Receipt)
answer_first [] = []
answer_first (h ∷ hs) = (h, receipt) ∷ []

abbrev pub poll_answers : PollAnswers
poll_answers = record {
  list_link = λ n. none;
  receipts = λ n hashes. ok (answer_first hashes);
  answers = λ n id. answers;
}

-- A request to send 5 units of the chain's coin from 9 to 8.
abbrev pub handler : TransferHandler
handler = record {
  chain_of = λ id. if id == 1 then some chain else none;
  has_address = λ a. true;
  is_hex_address = λ s. true;
  hex_to_address = λ s. if text_eq s (codes "a") then 9 else 8;
  pack_transfer = λ to v. ok (codes "calldata");
  normal_json = λ s. s;
}

abbrev pub request : TransferRequest
request = record {
  idempotency_key = codes "k";
  chain_id = 1;
  sender = codes "a";
  recipient = codes "b";
  token = codes "eth";
  amount = codes "5";
  priority = [];
  metadata = [];
}

abbrev pub first : RequestAnswers
first = record { find_link = none; create_link = none; log_link = none; new_id = 1; now = 10 }

-- A sender on the chain whose node has seen two transactions.
abbrev pub pair : Pair
pair = record {
  sender = 9;
  chain_id = 1;
  answers = record { pending_nonce_at = ok 2; read_link = none; write_link = none };
}
