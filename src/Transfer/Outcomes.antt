-- ===== src/Transfer/Outcomes.antt =====
-- How `Create` can end, and when a request is the same as a stored one.
use evm_tx_sender.Prelude.{
  ℕ, ◌&&◌, ==_iff, text_eq→eq, arith, Text, ◌≡◌, refl, Bool, true, false, Option, none, some, ok,
  err, [], ◌∷◌, ◌++◌, to_upper, text_eq_refl, ==_refl,
}
use evm_tx_sender.Domain.{
  Transaction, ErrorCode, AppError, ChainConfig, Priority, internal_error, idempotency_conflict,
  invalid_priority, new_app_error,
}
use evm_tx_sender.Repo.{Db, any, as_stored, clashes, get_transaction_by_idempotency_key}
use evm_tx_sender.Transfer.{
  TransferRequest, TransferHandler, reject, is_none, validate, Resolved, resolve_transfer, Reply,
  accepted, rejected, RequestAnswers, idempotency_match, tx_to_transfer_response, new_transaction,
  priority_of,
}

-- The parameters that a repeated request has to share with the stored transaction; texts of tokens
-- are compared in upper case.
pub record IsSameRequest (h : TransferHandler) (req : TransferRequest) (existing : Transaction)
    : Type 0 where
  pub same_chain : existing.chain_id ≡ req.chain_id
  pub same_sender : existing.sender ≡ h.hex_to_address req.sender
  pub same_recipient : existing.transfer_recipient ≡ h.hex_to_address req.recipient
  pub same_token : to_upper existing.transfer_token ≡ to_upper (to_upper req.token)
  pub same_amount : existing.transfer_amount ≡ req.amount

pub all_true :
    (a b c d e : Bool)
    → (a && (b && (c && (d && e)))) ≡ true
    → (a ≡ true) × (b ≡ true) × (c ≡ true) × (d ≡ true) × (e ≡ true)
all_true a b c d e h = ground arith

pub match-IsSameRequest :
    (h : TransferHandler) (req : TransferRequest) (existing : Transaction)
    → idempotency_match h existing req ≡ true
    → IsSameRequest h req existing
unfolding idempotency_match
match-IsSameRequest h req existing e =
    let (chain, sender, recipient, token, amount) = all_true _ _ _ _ _ e in
    record {
      same_chain = (==_iff _ _).0 chain;
      same_sender = (==_iff _ _).0 sender;
      same_recipient = (==_iff _ _).0 recipient;
      same_token = text_eq→eq _ _ token;
      same_amount = text_eq→eq _ _ amount;
    }

pub IsSameRequest-match :
    (h : TransferHandler) (req : TransferRequest) (existing : Transaction)
    → IsSameRequest h req existing
    → idempotency_match h existing req ≡ true
unfolding idempotency_match
IsSameRequest-match h req existing same =
    rw
      (
        same.same_chain,
        same.same_sender,
        same.same_recipient,
        same.same_token,
        same.same_amount,
        ==_refl req.chain_id,
        ==_refl (h.hex_to_address req.sender),
        ==_refl (h.hex_to_address req.recipient),
        text_eq_refl (to_upper (to_upper req.token)),
        text_eq_refl req.amount,
      )
      refl

-- The row that the insert makes of a new transaction.
abbrev pub new_row :
    TransferHandler → TransferRequest → RequestAnswers → Priority → Resolved → Transaction
new_row h req answers p params = as_stored h.normal_json (new_transaction h req answers p params)

abbrev pub internal : AppError
internal = new_app_error internal_error 500

-- Why a request is refused, with the error.
pub data Refusal (h : TransferHandler) (req : TransferRequest) (answers : RequestAnswers) (db : Db)
    : AppError → Type 0 where
  not_valid : (e : AppError) → validate h req ≡ some e → Refusal h req answers db e
  lost_lookup : (m : Text) → answers.find_link ≡ some m → Refusal h req answers db internal
  conflict :
      (existing : Transaction)
      → get_transaction_by_idempotency_key req.idempotency_key db ≡ some existing
      → (IsSameRequest h req existing → ⊥)
      → Refusal h req answers db (new_app_error idempotency_conflict 409)
  not_resolved :
      (chain : ChainConfig) (e : AppError)
      → h.chain_of req.chain_id ≡ some chain
      → resolve_transfer h req chain ≡ err e
      → Refusal h req answers db e
  bad_priority :
      priority_of req.priority ≡ none
      → Refusal h req answers db (new_app_error invalid_priority 400)
  lost_insert : (m : Text) → answers.create_link ≡ some m → Refusal h req answers db internal
  taken_id :
      (p : Priority) (params : Resolved)
      → any (clashes (new_transaction h req answers p params)) db.transactions ≡ true
      → Refusal h req answers db internal

-- How a request can end.
pub data Outcome (h : TransferHandler) (req : TransferRequest) (answers : RequestAnswers) (db : Db)
    : Reply × Db → Type 0 where
  refused : (e : AppError) → Refusal h req answers db e → Outcome h req answers db (rejected e, db)
  repeated :
      (existing : Transaction)
      → validate h req ≡ none
      → get_transaction_by_idempotency_key req.idempotency_key db ≡ some existing
      → IsSameRequest h req existing
      → Outcome h req answers db (accepted (tx_to_transfer_response existing), db)
  queued_new :
      (chain : ChainConfig) (p : Priority) (params : Resolved) (db' : Db)
      → validate h req ≡ none
      → h.chain_of req.chain_id ≡ some chain
      → resolve_transfer h req chain ≡ ok params
      → get_transaction_by_idempotency_key req.idempotency_key db ≡ none
      → db'.transactions ≡ db.transactions ++ new_row h req answers p params ∷ []
      → db'.attempts ≡ db.attempts
      → db'.nonce_cursors ≡ db.nonce_cursors
      → Outcome h req answers db
          (accepted (tx_to_transfer_response (new_transaction h req answers p params)), db')

pub reject-none :
    (b : Bool) (code : ErrorCode) (http : ℕ) (rest : Option AppError)
    → reject b code http rest ≡ none
    → (b ≡ false) × (rest ≡ none)
unfolding reject
reject-none true code http rest h = cc
reject-none false code http rest h = (refl, h)

pub is_none-false {ℓ} : {A : Type ℓ} (o : Option A) → is_none o ≡ false → (a : A) × (o ≡ some a)
is_none-false none h = cc
is_none-false (some a) h = (a, refl)

-- A valid request names a configured chain.
pub validate-chain :
    (h : TransferHandler) (req : TransferRequest)
    → validate h req ≡ none
    → (chain : ChainConfig) × (h.chain_of req.chain_id ≡ some chain)
unfolding validate
validate-chain h req e =
    let (a, k) = reject-none _ _ _ _ e in
    let (b, l) = reject-none _ _ _ _ k in
    let (c, m) = reject-none _ _ _ _ l in
    let (known, n) = reject-none _ _ _ _ m in is_none-false (h.chain_of req.chain_id) known

pub true-false : true ≡ false → ⊥
true-false e = cc
