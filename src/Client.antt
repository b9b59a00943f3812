-- ===== src/Client.antt =====
-- internal/infrastructure/ethereum/client.go: several endpoints of one chain, and which of them are
-- healthy. What an endpoint answers is an argument.
pub mod Failover
pub mod Broadcast
pub mod Batch
pub mod Calls
pub mod Rounds
use evm_tx_sender.Prelude.{
  ℕ, Text, Bool, true, false, Option, none, some, Result, ok, err, List, [], ◌∷◌, codes, ◌==◌,
  if◌then◌else◌,
}
use evm_tx_sender.Receipts.{Receipt}

-- `endpoint`: the number stands for its `ethclient.Client`, which is a pointer of its own.
pub record Endpoint : Type 0 where
  pub client : ℕ
  pub healthy : Bool

unfoldable pub is_healthy : List Endpoint → Bool
is_healthy [] = false
is_healthy (ep ∷ eps) = if ep.healthy then true else is_healthy eps

-- `getClient`: the first healthy endpoint's client.
unfoldable pub get_client : List Endpoint → Option ℕ
get_client [] = none
get_client (ep ∷ eps) = if ep.healthy then some ep.client else get_client eps

abbrev pub no_healthy_endpoints : Text
no_healthy_endpoints = codes "no healthy RPC endpoints"

-- `markUnhealthy`: the first endpoint with the client.
unfoldable pub mark_unhealthy : ℕ → List Endpoint → List Endpoint
mark_unhealthy client [] = []
mark_unhealthy client (ep ∷ eps) =
    if ep.client == client
    then record ep { healthy = false } ∷ eps
    else ep ∷ mark_unhealthy client eps

-- `recoverEndpoint`, on the answer to one probe: the goroutine stops at the first that succeeds.
unfoldable pub recover_endpoint : ℕ → Result Text ℕ → List Endpoint → List Endpoint
recover_endpoint client probe [] = []
recover_endpoint client (err e) (ep ∷ eps) = ep ∷ eps
recover_endpoint client (ok n) (ep ∷ eps) =
    if ep.client == client
    then record ep { healthy = true } ∷ eps
    else ep ∷ recover_endpoint client (ok n) eps

-- The second try of `BlockNumber`, with the error of the first.
abbrev pub second_try {ℓ} : {A : Type ℓ} → (ℕ → Result Text A) → Text → Option ℕ → Result Text A
second_try answer e none = err e
second_try answer e (some client) = answer client

-- `BlockNumber` on the answer of the first healthy endpoint.
abbrev pub on_block {ℓ} :
    {A : Type ℓ}
    → (ℕ → Result Text A)
    → ℕ
    → Result Text A
    → List Endpoint
    → Result Text A × List Endpoint
on_block second client (ok n) eps = (ok n, eps)
on_block second client (err e) eps =
    let eps' = mark_unhealthy client eps in (second_try second e (get_client eps'), eps')

abbrev pub on_client {ℓ} :
    {A : Type ℓ}
    → Option ℕ
    → List Endpoint
    → (ℕ → Result Text A × List Endpoint)
    → Result Text A × List Endpoint
on_client none eps work = (err no_healthy_endpoints, eps)
on_client (some client) eps work = work client

-- `BlockNumber`: the answers to the first and to the second call.
unfoldable pub block_number :
    (ℕ → Result Text ℕ) → (ℕ → Result Text ℕ) → List Endpoint → Result Text ℕ × List Endpoint
unfolding get_client mark_unhealthy
block_number first second eps =
    on_client (get_client eps) eps λ client. on_block second client (first client) eps

-- The calls without a second try: `PendingNonceAt`, `NonceAt`, `SuggestGasPrice`.
abbrev pub on_answer {ℓ} :
    {A : Type ℓ} → ℕ → Result Text A → List Endpoint → Result Text A × List Endpoint
on_answer client (ok n) eps = (ok n, eps)
on_answer client (err e) eps = (err e, mark_unhealthy client eps)

unfoldable pub single_call {ℓ} :
    {A : Type ℓ} → (ℕ → Result Text A) → List Endpoint → Result Text A × List Endpoint
unfolding get_client mark_unhealthy
single_call answer eps =
    on_client (get_client eps) eps λ client. on_answer client (answer client) eps

-- The slice `errs` of `SendTransaction`: an endpoint that is skipped leaves nil.
unfoldable pub send_errors : (ℕ → Option Text) → List Endpoint → List (Option Text)
send_errors answer [] = []
send_errors answer (ep ∷ eps) =
    (if ep.healthy then answer ep.client else none) ∷ send_errors answer eps

abbrev pub is_nil : Option Text → Bool
is_nil none = true
is_nil (some e) = false

unfoldable pub any_nil : List (Option Text) → Bool
any_nil [] = false
any_nil (e ∷ errs) = if is_nil e then true else any_nil errs

abbrev pub no_endpoints : Text
no_endpoints = codes "no healthy endpoints to broadcast"

unfoldable pub first_error : List (Option Text) → Text
first_error [] = no_endpoints
first_error (none ∷ errs) = first_error errs
first_error (some e ∷ errs) = e

-- `SendTransaction`: `none` is success.
unfoldable pub send_transaction : (ℕ → Option Text) → List Endpoint → Option Text
unfolding send_errors any_nil first_error
send_transaction answer eps =
    let errs = send_errors answer eps in if any_nil errs then none else some (first_error errs)

abbrev pub has_key : ℕ → List (ℕ × Receipt) → Bool
has_key h [] = false
has_key h ((g, receipt) ∷ rest) = if g == h then true else has_key h rest

-- A Go map, of which a later entry with the same key wins.
abbrev pub put : ℕ → Receipt → List (ℕ × Receipt) → List (ℕ × Receipt)
put h receipt later = if has_key h later then later else (h, receipt) ∷ later

-- The last loop of `BatchTransactionReceipts`: one answer for each hash asked for, in order; a
-- receipt that is null, or whose call failed, is left out.
unfoldable pub collect_receipts : List ℕ → List (Result Text (Option Receipt)) → List (ℕ × Receipt)
collect_receipts (h ∷ hs) (ok (some receipt) ∷ answers) =
    put h receipt (collect_receipts hs answers)
collect_receipts (h ∷ hs) (ok none ∷ answers) = collect_receipts hs answers
collect_receipts (h ∷ hs) (err e ∷ answers) = collect_receipts hs answers
collect_receipts hs answers = []

abbrev pub on_batch :
    ℕ
    → List ℕ
    → Result Text (List (Result Text (Option Receipt)))
    → List Endpoint
    → Result Text (List (ℕ × Receipt)) × List Endpoint
on_batch client hashes (err e) eps = (err e, mark_unhealthy client eps)
on_batch client hashes (ok answers) eps = (ok (collect_receipts hashes answers), eps)

unfoldable pub batch_transaction_receipts :
    (ℕ → List ℕ → Result Text (List (Result Text (Option Receipt))))
    → List ℕ
    → List Endpoint
    → Result Text (List (ℕ × Receipt)) × List Endpoint
unfolding get_client mark_unhealthy collect_receipts
batch_transaction_receipts answer [] eps = (ok [], eps)
batch_transaction_receipts answer (h ∷ hs) eps =
    on_client (get_client eps) eps λ client. on_batch client (h ∷ hs) (answer client (h ∷ hs)) eps
