-- ===== src/Manager/Pairs.antt =====
-- `Start` runs one pipeline for each pair of an address and a chain, and a notification reaches it.
use native.Mathlib.Nat.{add-mul, one-mul}
use evm_tx_sender.Prelude.{
  ℕ, ◌+◌, ◌*◌, ◌^◌, ◌<◌, ◌≡◌, refl, ◌∙◌, ap, Bool, true, false, List, [], ◌∷◌, count_if,
  count_if-append, All, All-append, Bool-cases, inl, inr, arith, ◌==◌, if◌then◌else◌,
}
use evm_tx_sender.Domain.{ChainConfig, address_text}
use evm_tx_sender.Manager.Launch.{Running, pipelines_of, start_pipelines, start, notify_pipeline}
use evm_tx_sender.Manager.Wake.{is_of, woken, IsAddress, notify_pipeline-woken}

-- The addresses and the configured chains of a pair.
abbrev pub addresses : ℕ → List ℕ → ℕ
addresses sender addrs = count_if (λ a. a == sender) addrs

abbrev pub chains_with : ℕ → List ChainConfig → ℕ
chains_with chain_id chains = count_if (λ (c : ChainConfig). c.chain_id == chain_id) chains

module _ (sender chain_id : ℕ) where
  count-pipelines_of :
      (chain : ChainConfig) (addrs : List ℕ)
      → count_if (is_of sender chain_id) (pipelines_of chain addrs)
        ≡ (if chain.chain_id == chain_id then addresses sender addrs else 0)
  unfolding pipelines_of
  count-pipelines_of chain [] = ground arith
  count-pipelines_of chain (a ∷ addrs) = ground (arith, count-pipelines_of chain addrs)

  module _ (has_client : ℕ → Bool) (addrs : List ℕ) where
    -- How many pipelines of the pair `Start` runs.
    abbrev pub expected : List ChainConfig → ℕ
    expected chains =
        (if has_client chain_id then chains_with chain_id chains else 0) * addresses sender addrs

    expected-cons :
        (c : ChainConfig) (chains : List ChainConfig)
        → expected (c ∷ chains)
          ≡ (if has_client c.chain_id
              then if c.chain_id == chain_id then addresses sender addrs else 0
              else 0)
            + expected chains
    expected-cons c chains = elim (Bool-cases (c.chain_id == chain_id)) [
      | inl e ↦
          let same : c.chain_id ≡ chain_id = ground arith in
          elim (Bool-cases (has_client chain_id)) [
            | inl k ↦
                let known : has_client c.chain_id ≡ true = ap has_client same ∙ k in
                rw (e, k, known)
                  (add-mul 1 (chains_with chain_id chains) (addresses sender addrs)
                    ∙ ap (λ n. n + chains_with chain_id chains * addresses sender addrs)
                        (one-mul (addresses sender addrs)))
            | inr k ↦
                let unknown : has_client c.chain_id ≡ false = ap has_client same ∙ k in
                rw (k, unknown) (omega arith)
          ]
      | inr e ↦ rw e (elim (Bool-cases (has_client c.chain_id)) [
        | inl k ↦ rw k (grind arith)
        | inr k ↦ rw k (grind arith)
      ])
    ]

    pub count-start_pipelines :
        (chains : List ChainConfig)
        → count_if (is_of sender chain_id) (start_pipelines has_client addrs chains)
          ≡ expected chains
    unfolding start_pipelines
    count-start_pipelines [] = ground arith
    count-start_pipelines (c ∷ chains) = rw (expected-cons c chains) (
        count_if-append (is_of sender chain_id)
          (if has_client c.chain_id then pipelines_of c addrs else [])
          (start_pipelines has_client addrs chains)
        ∙ rw (count-start_pipelines chains) (elim (Bool-cases (has_client c.chain_id)) [
          | inl k ↦ rw (k, count-pipelines_of c addrs) refl
          | inr k ↦ rw k refl
        ]))

count-woken :
    (sender chain_id : ℕ) (ps : List Running)
    → All (λ (p : Running). p.notify ≡ false) ps
    → count_if (λ (p : Running). p.notify) (woken sender chain_id ps)
      ≡ count_if (is_of sender chain_id) ps
count-woken sender chain_id [] h = refl
count-woken sender chain_id (p ∷ ps) h = elim (Bool-cases (is_of sender chain_id p)) [
  | inl e ↦ rw (e, count-woken sender chain_id ps h.1) refl
  | inr e ↦ rw (e, h.0, count-woken sender chain_id ps h.1) refl
]

module _ (P : Running → Type 0) where
  All-pipelines_of :
      (chain : ChainConfig) (addrs : List ℕ)
      → All (λ a. P (record { sender = a; chain = chain; notify = false })) addrs
      → All P (pipelines_of chain addrs)
  unfolding pipelines_of
  All-pipelines_of chain [] h = tt
  All-pipelines_of chain (a ∷ addrs) h = (h.0, All-pipelines_of chain addrs h.1)

  All-start_pipelines :
      (has_client : ℕ → Bool) (addrs : List ℕ) (chains : List ChainConfig)
      → ((chain : ChainConfig)
          → All (λ a. P (record { sender = a; chain = chain; notify = false })) addrs)
      → All P (start_pipelines has_client addrs chains)
  unfolding start_pipelines
  All-start_pipelines has_client addrs [] h = tt
  All-start_pipelines has_client addrs (c ∷ chains) h = elim (Bool-cases (has_client c.chain_id)) [
    | inl e ↦ rw e (
        All-append P (pipelines_of c addrs) _ (All-pipelines_of c addrs (h c))
          (All-start_pipelines has_client addrs chains h))
    | inr e ↦ rw e (All-start_pipelines has_client addrs chains h)
  ]

quiet :
    (addrs : List ℕ) (chain : ChainConfig)
    → All
        (λ a.
          (λ (p : Running). p.notify ≡ false)
            (record { sender = a; chain = chain; notify = false }))
        addrs
quiet [] chain = tt
quiet (a ∷ addrs) chain = (refl, quiet addrs chain)

-- `Start` runs one pipeline for each pair of an address of the signer and a configured chain that
-- has a client, and none for any other pair. A notification of a pair, as `Create` sends it, then
-- puts a message into the channels of just the pipelines of that pair: into one if the signer and
-- the configuration name the pair once, and into none if the chain has no client.
pub start_wakes :
    (has_client : ℕ → Bool) (addrs : List ℕ) (chains : List ChainConfig) (sender chain_id : ℕ)
    → All (λ a. a < 16 ^ 40) addrs
    → sender < 16 ^ 40
    → let ps = (start has_client addrs chains).pipelines in
      (count_if (is_of sender chain_id) ps ≡ expected sender chain_id has_client addrs chains)
      × (count_if (λ (p : Running). p.notify) (notify_pipeline (address_text sender) chain_id ps)
          ≡ expected sender chain_id has_client addrs chains)
unfolding start
start_wakes has_client addrs chains sender chain_id ha hs =
    let ps = start_pipelines has_client addrs chains in
    let one = count-start_pipelines sender chain_id has_client addrs chains in
    let valid : All IsAddress ps =
      All-start_pipelines IsAddress has_client addrs chains (λ c. ha) in
    let silent =
      All-start_pipelines (λ (p : Running). p.notify ≡ false) has_client addrs chains
        (quiet addrs) in
    (
      one,
      rw (notify_pipeline-woken sender chain_id ps hs valid)
          (count-woken sender chain_id ps silent ∙ one),
    )
