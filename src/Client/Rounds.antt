-- ===== src/Client/Rounds.antt =====
-- What the health check makes of the endpoints, and how a client starts.
use evm_tx_sender.Prelude.{
  ℕ, ◌≤◌, ◌≡◌, inl, inr, refl, Text, true, false, Option, none, some, Result, ok, err, List, [],
  ◌∷◌, All, In, length, Bool-cases, arith,
}
use evm_tx_sender.Client.{Endpoint, get_client}
use evm_tx_sender.Client.Calls.{
  add_dialled, dial_all, reachable, new_client, answers_well, check_endpoints,
}

abbrev pub Answers : (ℕ → Result Text ℕ) → ℕ → Type 0
Answers probe client = answers_well (probe client) ≡ true

-- Which client is in use: one of the endpoints that answered, or none where no endpoint did.
abbrev pub InUse : (ℕ → Result Text ℕ) → List Endpoint → Option ℕ → Type 0
InUse probe eps none = All (λ (ep : Endpoint). answers_well (probe ep.client) ≡ false) eps
InUse probe eps (some client) =
    Answers probe client × ((ep : Endpoint) × In ep eps × (ep.client ≡ client))

-- Behind a tick of the health check the client in use is that of an endpoint that answered, and no
-- client is in use exactly where no endpoint answered: whatever was marked before.
pub check_endpoints-InUse :
    (probe : ℕ → Result Text ℕ) (eps : List Endpoint)
    → InUse probe eps (get_client (check_endpoints probe eps))
unfolding get_client check_endpoints
check_endpoints-InUse probe [] = tt
check_endpoints-InUse probe (ep ∷ eps) = elim (Bool-cases (answers_well (probe ep.client))) [
  | inl e ↦ rw e (e, (ep, inl refl, refl))
  | inr e ↦
      rw e (behind (get_client (check_endpoints probe eps)) e (check_endpoints-InUse probe eps))
]
  where
    behind :
        (o : Option ℕ)
        → answers_well (probe ep.client) ≡ false
        → InUse probe eps o
        → InUse probe (ep ∷ eps) o
    behind none e h = (e, h)
    behind (some client) e (h, (q, there, same)) = (h, (q, inr there, same))

-- An endpoint of a new client: healthy, and dialled from one of the URLs.
pub record IsDialled (dial : Text → Option ℕ) (urls : List Text) (ep : Endpoint) : Type 0 where
  pub healthy : ep.healthy ≡ true
  pub dialled : (url : Text) × In url urls × (dial url ≡ some ep.client)

later_url :
    (dial : Text → Option ℕ) (url : Text) (urls : List Text) (eps : List Endpoint)
    → All (IsDialled dial urls) eps
    → All (IsDialled dial (url ∷ urls)) eps
later_url dial url urls [] h = tt
later_url dial url urls (ep ∷ eps) (h, rest) =
    let (u, there, from) = h.dialled in
    (
      record { healthy = h.healthy; dialled = (u, inr there, from) },
      later_url dial url urls eps rest,
    )

dial_all-IsDialled :
    (dial : Text → Option ℕ) (urls : List Text) → All (IsDialled dial urls) (dial_all dial urls)
unfolding dial_all
dial_all-IsDialled dial [] = tt
dial_all-IsDialled dial (url ∷ urls) =
    first (dial url) refl
      (later_url dial url urls (dial_all dial urls) (dial_all-IsDialled dial urls))
  where
    first :
        (o : Option ℕ)
        → dial url ≡ o
        → All (IsDialled dial (url ∷ urls)) (dial_all dial urls)
        → All (IsDialled dial (url ∷ urls)) (add_dialled o (dial_all dial urls))
    first none e rest = rest
    first (some client) e rest = (record { healthy = refl; dialled = (url, inl refl, e) }, rest)

-- How `NewClient` ends: with endpoints, or with an error where no URL can be dialled.
abbrev pub Connected : (Text → Option ℕ) → List Text → Result Text (List Endpoint) → Type 0
Connected dial urls (ok eps) = (1 ≤ length eps) × All (IsDialled dial urls) eps
Connected dial urls (err e) = All (λ url. dial url ≡ none) urls

nonempty : {ep : Endpoint} {eps : List Endpoint} → ep ∷ eps ≡ [] → ⊥
nonempty h = cc

failed_everywhere :
    (dial : Text → Option ℕ) (urls : List Text)
    → dial_all dial urls ≡ []
    → All (λ url. dial url ≡ none) urls
unfolding dial_all
failed_everywhere dial [] h = tt
failed_everywhere dial (url ∷ urls) h = first (dial url) refl h (λ k. failed_everywhere dial urls k)
  where
    first :
        (o : Option ℕ)
        → dial url ≡ o
        → add_dialled o (dial_all dial urls) ≡ []
        → (dial_all dial urls ≡ [] → All (λ u. dial u ≡ none) urls)
        → All (λ u. dial u ≡ none) (url ∷ urls)
    first none e k rest = (e, rest k)
    first (some client) e k rest = absurd (nonempty k)

-- A client starts with at least one endpoint, all of them healthy and dialled from its URLs, or it
-- is refused, and then none of its URLs could be dialled.
pub new_client-Connected :
    (dial : Text → Option ℕ) (urls : List Text) → Connected dial urls (new_client dial urls)
unfolding new_client
new_client-Connected dial [] = tt
new_client-Connected dial (url ∷ urls) =
    go (dial_all dial (url ∷ urls)) refl (dial_all-IsDialled dial (url ∷ urls))
  where
    go :
        (eps : List Endpoint)
        → dial_all dial (url ∷ urls) ≡ eps
        → All (IsDialled dial (url ∷ urls)) eps
        → Connected dial (url ∷ urls) (reachable eps)
    go [] e h = failed_everywhere dial (url ∷ urls) e
    go (ep ∷ eps) e h = (omega arith, h)
