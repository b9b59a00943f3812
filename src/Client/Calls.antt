-- ===== src/Client/Calls.antt =====
-- `NewClient`, the round of `StartHealthCheck`, and the calls that do not mark an endpoint or read
-- more than the answer.
use evm_tx_sender.Prelude.{
  ℕ, Text, Bool, true, false, Option, none, some, Result, ok, err, List, [], ◌∷◌, codes,
}
use evm_tx_sender.Client.{Endpoint, get_client, on_client, mark_unhealthy}

-- The loop of `NewClient`: a URL that cannot be dialled is left out. `dial` gives the new
-- `ethclient.Client`.
abbrev pub add_dialled : Option ℕ → List Endpoint → List Endpoint
add_dialled none eps = eps
add_dialled (some client) eps = record { client = client; healthy = true } ∷ eps

unfoldable pub dial_all : (Text → Option ℕ) → List Text → List Endpoint
dial_all dial [] = []
dial_all dial (url ∷ urls) = add_dialled (dial url) (dial_all dial urls)

abbrev pub no_urls : Text
no_urls = codes "no RPC URLs"

abbrev pub none_reachable : Text
none_reachable = codes "no reachable RPC endpoints"

abbrev pub reachable : List Endpoint → Result Text (List Endpoint)
reachable [] = err none_reachable
reachable (ep ∷ eps) = ok (ep ∷ eps)

-- `NewClient`
unfoldable pub new_client : (Text → Option ℕ) → List Text → Result Text (List Endpoint)
unfolding dial_all
new_client dial [] = err no_urls
new_client dial (url ∷ urls) = reachable (dial_all dial (url ∷ urls))

-- `EstimateGas`, `SuggestGasTipCap` and `TransactionReceipt`: an error leaves the endpoint in use.
unfoldable pub plain_call {ℓ} :
    {A : Type ℓ} → (ℕ → Result Text A) → List Endpoint → Result Text A × List Endpoint
unfolding get_client
plain_call answer eps = on_client (get_client eps) eps λ client. (answer client, eps)

abbrev pub no_base_fee : Text
no_base_fee = codes "chain does not support EIP-1559"

-- The latest header, on its answer: its base fee may be nil.
abbrev pub on_header : ℕ → Result Text (Option ℕ) → List Endpoint → Result Text ℕ × List Endpoint
on_header client (err e) eps = (err e, mark_unhealthy client eps)
on_header client (ok none) eps = (err no_base_fee, eps)
on_header client (ok (some fee)) eps = (ok fee, eps)

-- `LatestBaseFee`
unfoldable pub latest_base_fee :
    (ℕ → Result Text (Option ℕ)) → List Endpoint → Result Text ℕ × List Endpoint
unfolding get_client mark_unhealthy
latest_base_fee header eps =
    on_client (get_client eps) eps λ client. on_header client (header client) eps

abbrev pub answers_well : Result Text ℕ → Bool
answers_well (ok n) = true
answers_well (err e) = false

-- One tick of the health check: each endpoint is asked for its block number.
unfoldable pub check_endpoints : (ℕ → Result Text ℕ) → List Endpoint → List Endpoint
check_endpoints probe [] = []
check_endpoints probe (ep ∷ eps) =
    record ep { healthy = answers_well (probe ep.client) } ∷ check_endpoints probe eps
