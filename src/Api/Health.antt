-- ===== src/Api/Health.antt =====
-- `Health` of internal/api/health.go. `Status` and `DB`, which are one of two texts each, are
-- Booleans.
use evm_tx_sender.Prelude.{
  ℕ, ◌≡◌, ◌≢◌, ◌↔◌, refl, sym, ◌∙◌, Text, Bool, true, false, ◌&&◌, Option, none, some, Result, ok,
  err, List, [], ◌∷◌, map, if◌then◌else◌, All, Bool-cases, inl, inr, arith,
}
use evm_tx_sender.Repo.{Db}
use evm_tx_sender.Client.{Endpoint, is_healthy, block_number}
use evm_tx_sender.Manager.Launch.{Running, pipeline_status}

-- `ChainHealth`; the handler leaves the number of endpoints at zero.
pub record ChainHealth : Type 0 where
  pub chain_id : ℕ
  pub healthy : Bool
  pub latest_block : ℕ
  pub rpc_endpoints : ℕ

-- A client of the service and what its endpoints answer to the two calls of `BlockNumber`.
pub record ChainClient : Type 0 where
  pub chain_id : ℕ
  pub endpoints : List Endpoint
  pub first : ℕ → Result Text ℕ
  pub second : ℕ → Result Text ℕ

pub record HealthResponse : Type 0 where
  pub healthy : Bool
  pub chains : List ChainHealth
  pub pipelines : List (Text × ℕ)
  pub db_connected : Bool

abbrev pub block_or_zero : Result Text ℕ → ℕ
block_or_zero (ok n) = n
block_or_zero (err e) = 0

-- One round of the loop over the clients. The block number is asked of a healthy client only.
unfoldable pub chain_health : ChainClient → ChainHealth
chain_health c = record {
  chain_id = c.chain_id;
  healthy = is_healthy c.endpoints;
  latest_block =
      if is_healthy c.endpoints
      then block_or_zero (block_number c.first c.second c.endpoints).0
      else 0;
  rpc_endpoints = 0;
}

-- The client behind its round: an endpoint that fails to give the block number is marked.
unfoldable pub client_behind : ChainClient → ChainClient
client_behind c =
    if is_healthy c.endpoints
    then record c { endpoints = (block_number c.first c.second c.endpoints).1 }
    else c

unfoldable pub check_chains : List ChainClient → List ChainHealth
unfolding chain_health
check_chains [] = []
check_chains (c ∷ clients) = chain_health c ∷ check_chains clients

-- Whether no client took the status to degraded.
unfoldable pub all_healthy : List ChainHealth → Bool
all_healthy [] = true
all_healthy (h ∷ chains) = h.healthy && all_healthy chains

abbrev pub is_up : Option Text → Bool
is_up none = true
is_up (some e) = false

-- `Health`: the HTTP status and the body, on the error of the ping and those of the counts, and the
-- clients behind it.
unfoldable pub health :
    Option Text
    → List ChainClient
    → (ℕ → Option Text)
    → List Running
    → Db
    → ℕ × HealthResponse × List ChainClient
unfolding check_chains all_healthy client_behind
health ping clients link pipelines db =
    let healthy = is_up ping && all_healthy (check_chains clients) in
    (
      if healthy then 200 else 503,
      record {
        healthy = healthy;
        chains = check_chains clients;
        pipelines = pipeline_status link pipelines db;
        db_connected = is_up ping;
      },
      map client_behind clients,
    )

clash : true ≡ false → ⊥
clash k = cc

all_healthy-All :
    (clients : List ChainClient)
    → all_healthy (check_chains clients) ≡ true
    → All (λ (c : ChainClient). is_healthy c.endpoints ≡ true) clients
unfolding check_chains all_healthy
all_healthy-All [] h = tt
all_healthy-All (c ∷ clients) h = elim (Bool-cases (is_healthy c.endpoints)) [
  | inl e ↦ (e, all_healthy-All clients (rw e at h))
  | inr e ↦ absurd (clash (sym (rw e at h)))
]

All-all_healthy :
    (clients : List ChainClient)
    → All (λ (c : ChainClient). is_healthy c.endpoints ≡ true) clients
    → all_healthy (check_chains clients) ≡ true
unfolding check_chains all_healthy
All-all_healthy [] h = refl
All-all_healthy (c ∷ clients) h = rw h.0 (All-all_healthy clients h.1)

-- `Health` answers with the status 200 exactly if the database answers the ping and every client
-- has a healthy endpoint, and with 503 in every other case; the body says the same. A block number
-- or a count that fails does not take the status down.
pub health_iff :
    (ping : Option Text) (clients : List ChainClient) (link : ℕ → Option Text)
    (pipelines : List Running) (db : Db)
    → let (code, body, behind) = health ping clients link pipelines db in
      ((code ≡ 200)
        ↔ ((ping ≡ none) × All (λ (c : ChainClient). is_healthy c.endpoints ≡ true) clients))
      × (code ≢ 200 → code ≡ 503)
      × ((code ≡ 200) ↔ (body.healthy ≡ true))
unfolding health
health_iff (some e) clients link pipelines db = (
  (λ k. absurd (omega arith), λ (k, all). absurd (nothing k)),
  λ k. refl,
  (λ k. absurd (omega arith), λ k. cc),
)
  where
    nothing : {m : Text} → some m ≡ none → ⊥
    nothing k = cc
health_iff none clients link pipelines db = elim (Bool-cases (all_healthy (check_chains clients))) [
  | inl e ↦ rw e (
    (λ k. (refl, all_healthy-All clients e), λ k. refl),
    λ k. absurd (k refl),
    (λ k. refl, λ k. refl),
  )
  | inr e ↦ rw e (
    (λ k. absurd (omega arith), λ (k, all). absurd (clash (sym (All-all_healthy clients all) ∙ e))),
    λ k. refl,
    (λ k. absurd (omega arith), λ k. absurd (clash (sym k))),
  )
]
