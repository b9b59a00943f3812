-- ===== src/Client/Broadcast.antt =====
-- What the success of a broadcast over several endpoints means.
use evm_tx_sender.Prelude.{
  ℕ, Text, ◌≡◌, ◌↔◌, ◌⊎◌, inl, inr, refl, Bool, true, false, Option, none, some, List, [], ◌∷◌, In,
  All, All-In, Bool-cases, if◌then◌else◌,
}
use evm_tx_sender.Client.{Endpoint, send_errors, is_nil, any_nil, send_transaction}

-- An endpoint counts as a success: it was skipped, or accepted the transaction.
abbrev pub CountsAsSuccess : (ℕ → Option Text) → Endpoint → Type 0
CountsAsSuccess answer ep = (ep.healthy ≡ false) ⊎ (answer ep.client ≡ none)

nil_iff : (o : Option Text) → (is_nil o ≡ true) ↔ (o ≡ none)
nil_iff none = (λ h. refl, λ h. refl)
nil_iff (some e) = (λ h. cc, λ h. cc)

counts_iff :
    (answer : ℕ → Option Text) (client : ℕ) (healthy : Bool)
    → ((if healthy then answer client else none) ≡ none)
      ↔ ((healthy ≡ false) ⊎ (answer client ≡ none))
counts_iff answer client true = (λ h. inr h, go)
  where
    go : (true ≡ false) ⊎ (answer client ≡ none) → answer client ≡ none
    go (inl e) = cc
    go (inr e) = e
counts_iff answer client false = (λ h. inl refl, λ h. refl)

module _ (answer : ℕ → Option Text) where
  any_nil-there :
      (eps : List Endpoint)
      → any_nil (send_errors answer eps) ≡ true
      → (ep : Endpoint) × In ep eps × CountsAsSuccess answer ep
  unfolding any_nil send_errors
  any_nil-there [] h = cc
  any_nil-there (ep ∷ eps) h =
      elim (Bool-cases (is_nil (if ep.healthy then answer ep.client else none))) [
        | inl e ↦ (ep, inl refl, (counts_iff answer ep.client ep.healthy).0 ((nil_iff _).0 e))
        | inr e ↦ let (x, i, c) = any_nil-there eps (rw e at h) in (x, inr i, c)
      ]

  there-any_nil :
      (ep : Endpoint) (eps : List Endpoint)
      → In ep eps
      → CountsAsSuccess answer ep
      → any_nil (send_errors answer eps) ≡ true
  unfolding any_nil send_errors
  there-any_nil ep [] i c = absurd i
  there-any_nil ep (x ∷ eps) (inl same) c =
      let e : is_nil (if x.healthy then answer x.client else none) ≡ true = rw same (
        (nil_iff (if ep.healthy then answer ep.client else none)).1
          ((counts_iff answer ep.client ep.healthy).1 c)) in
      rw e refl
  there-any_nil ep (x ∷ eps) (inr i) c =
      elim (Bool-cases (is_nil (if x.healthy then answer x.client else none))) [
        | inl e ↦ rw e refl
        | inr e ↦ rw e (there-any_nil ep eps i c)
      ]

  -- `SendTransaction` reports success exactly if some endpoint was skipped as unhealthy, or
  -- accepted the transaction: with an unhealthy endpoint it does so though every other endpoint
  -- refused, or none was asked.
  pub send_transaction_iff :
      (eps : List Endpoint)
      → (send_transaction answer eps ≡ none)
        ↔ ((ep : Endpoint) × In ep eps × CountsAsSuccess answer ep)
  unfolding send_transaction
  send_transaction_iff eps = (there, λ k. rw (there-any_nil k.0 eps k.1 k.2) refl)
    where
      there :
          send_transaction answer eps ≡ none
          → (ep : Endpoint) × In ep eps × CountsAsSuccess answer ep
      there h = elim (Bool-cases (any_nil (send_errors answer eps))) [
        | inl e ↦ any_nil-there eps e
        | inr e ↦ absurd (let k = rw e at h in cc)
      ]

-- If every endpoint is healthy, `SendTransaction` reports success exactly if one accepted.
pub send_transaction_healthy :
    (answer : ℕ → Option Text) (eps : List Endpoint)
    → All (λ ep. ep.healthy ≡ true) eps
    → (send_transaction answer eps ≡ none)
      ↔ ((ep : Endpoint) × In ep eps × (answer ep.client ≡ none))
send_transaction_healthy answer eps healthy = (there, back)
  where
    accepted :
        (ep : Endpoint) → ep.healthy ≡ true → CountsAsSuccess answer ep → answer ep.client ≡ none
    accepted ep h (inl e) = cc
    accepted ep h (inr e) = e

    there :
        send_transaction answer eps ≡ none → (ep : Endpoint) × In ep eps × (answer ep.client ≡ none)
    there h =
        let (ep, i, c) = (send_transaction_iff answer eps).0 h in
        (ep, i, accepted ep (All-In (λ x. x.healthy ≡ true) ep eps healthy i) c)

    back :
        ((ep : Endpoint) × In ep eps × (answer ep.client ≡ none))
        → send_transaction answer eps ≡ none
    back (ep, i, e) = (send_transaction_iff answer eps).1 (ep, i, inr e)
