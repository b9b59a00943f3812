-- ===== src/Client/Failover.antt =====
-- Which endpoint is used behind a failure, and behind a recovery.
use evm_tx_sender.Prelude.{
  ℕ, ◌≤◌, ◌≡◌, ◌≢◌, ap, sym, true, false, some, some_inj, ok, List, [], ◌∷◌, count_if, inl, inr,
  ◌==◌, ==_iff, Bool-cases, arith,
}
use evm_tx_sender.Client.{Endpoint, get_client, mark_unhealthy, recover_endpoint}

-- No two endpoints share a client.
abbrev pub AreDistinct : List Endpoint → Type 0
AreDistinct eps = (client : ℕ) → count_if (λ ep. ep.client == client) eps ≤ 1

get_client-count :
    (eps : List Endpoint) (client : ℕ)
    → get_client eps ≡ some client
    → 1 ≤ count_if (λ ep. ep.client == client) eps
unfolding get_client
get_client-count [] client h = cc
get_client-count (ep ∷ eps) client h = elim (Bool-cases ep.healthy) [
  | inl e ↦ let same : ep.client ≡ client = some_inj ep.client client (rw e at h) in ground arith
  | inr e ↦ omega (arith, get_client-count eps client (rw e at h))
]

distinct_rest : (ep : Endpoint) (eps : List Endpoint) → AreDistinct (ep ∷ eps) → AreDistinct eps
distinct_rest ep eps h client = let k = h client in omega arith

-- The endpoint in use is not the one of a head that is unhealthy.
other_head :
    (ep : Endpoint) (eps : List Endpoint) (client : ℕ)
    → AreDistinct (ep ∷ eps)
    → get_client eps ≡ some client
    → (ep.client == client) ≡ false
other_head ep eps client distinct h =
    let k = distinct client in let c = get_client-count eps client h in ground arith

in_use :
    (ep : Endpoint) (eps : List Endpoint) (client : ℕ)
    → ep.healthy ≡ true
    → get_client (ep ∷ eps) ≡ some client
    → (ep.client == client) ≡ true
unfolding get_client
in_use ep eps client e h = (==_iff ep.client client).1 (some_inj ep.client client (rw e at h))

used_once :
    (ep : Endpoint) (eps : List Endpoint) (client : ℕ)
    → AreDistinct (ep ∷ eps)
    → (ep.client == client) ≡ true
    → get_client eps ≢ some client
used_once ep eps client distinct mine k =
    let n = distinct client in let c = get_client-count eps client k in ground arith

-- Behind a failure of the endpoint in use, that endpoint is not the one in use: a second try goes
-- to another endpoint, or to none.
pub mark_unhealthy_moves_on :
    (eps : List Endpoint) (client : ℕ)
    → AreDistinct eps
    → get_client eps ≡ some client
    → get_client (mark_unhealthy client eps) ≢ some client
unfolding get_client mark_unhealthy
mark_unhealthy_moves_on [] client distinct h = cc
mark_unhealthy_moves_on (ep ∷ eps) client distinct h = elim (Bool-cases ep.healthy) [
  | inl e ↦ let mine = in_use ep eps client e h in rw mine (used_once ep eps client distinct mine)
  | inr e ↦
      let rest : get_client eps ≡ some client = rw e at h in
      rw (other_head ep eps client distinct rest, e)
        (mark_unhealthy_moves_on eps client (distinct_rest ep eps distinct) rest)
]

-- When the endpoint that failed recovers, the endpoints are as they were before the failure.
pub recover_endpoint_restores :
    (eps : List Endpoint) (client block : ℕ)
    → AreDistinct eps
    → get_client eps ≡ some client
    → recover_endpoint client (ok block) (mark_unhealthy client eps) ≡ eps
unfolding get_client mark_unhealthy recover_endpoint
recover_endpoint_restores [] client block distinct h = cc
recover_endpoint_restores (ep ∷ eps) client block distinct h = elim (Bool-cases ep.healthy) [
  | inl e ↦
      let mine = in_use ep eps client e h in
      rw (mine, mine) (ap (λ b. record { client = ep.client; healthy = b } ∷ eps) (sym e))
  | inr e ↦
      let rest : get_client eps ≡ some client = rw e at h in
      rw (other_head ep eps client distinct rest, other_head ep eps client distinct rest)
        (ap (λ r. ep ∷ r)
          (recover_endpoint_restores eps client block (distinct_rest ep eps distinct) rest))
]
