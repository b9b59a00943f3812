-- ===== src/Config/Sound.antt =====
-- What a configuration that `Load` accepts is fit for.
use evm_tx_sender.Prelude.{
  ℕ, ◌≤◌, ◌<◌, ◌≡◌, refl, Text, pos, Bool, true, false, not, ap, count_if, count-select,
  count-select_apart, ◌==◌, ==_iff, Option, none, some, Result, ok, err, Ensures, List, [], ◌∷◌,
  All, Bool-cases, inl, inr, length, is_empty, codes, to_upper, arith,
}
use evm_tx_sender.Domain.{ChainConfig, TokenConfig, lookup_token}
use evm_tx_sender.Domain.Amount.{set_string, max_uint256}
use evm_tx_sender.Api.{parse_uint}
use evm_tx_sender.Repo.Sorted.{All-select}
use evm_tx_sender.Transfer.{check_amount}
use evm_tx_sender.Config.{
  Viper, Crypto, ConfigError, Config, Loaded, setting, big_int_from_viper, chain_of, on_tokens,
  on_urls, parse_chain, without, add_chain, on_chain_key, load_chains, load_keys, parse_database,
  on_loaded, on_keys, on_chains, load,
}
use evm_tx_sender.Config.Tokens.{IsListed, coin_is_no_token, parse_tokens-IsListed}
use evm_tx_sender.Config.Signers.{
  IsDerived, KeysAreDerived, is_key_of, no_keys-KeysAreDerived, load_keys-KeysAreDerived,
}

-- A chain has an endpoint, and no token that the symbol of its coin would name.
pub record IsUsable (v : Viper) (chain : ChainConfig) : Type 0 where
  pub has_endpoint : 1 ≤ length chain.rpc_endpoints
  pub tokens : All (IsListed v chain.native_token_symbol) chain.token_whitelist
  pub coin : lookup_token (to_upper chain.native_token_symbol) chain.token_whitelist ≡ none

abbrev pub is_chain : ℕ → ChainConfig → Bool
is_chain id chain = chain.chain_id == id

-- The chains are usable, and no two have the same number.
record AreUsable (v : Viper) (chains : List ChainConfig) : Type 0 where
  usable : All (IsUsable v) chains
  distinct : (id : ℕ) → count_if (is_chain id) chains ≤ 1

added-AreUsable :
    (v : Viper) (chain : ChainConfig) (chains : List ChainConfig)
    → IsUsable v chain
    → AreUsable v chains
    → AreUsable v (chain ∷ without chain.chain_id chains)
added-AreUsable v chain chains k h = record {
  usable = (
    k,
    All-select (IsUsable v) (λ (c : ChainConfig). not (c.chain_id == chain.chain_id)) chains
        h.usable,
  );
  distinct = λ id. elim (Bool-cases (chain.chain_id == id)) [
    | inl e ↦
        let same : chain.chain_id ≡ id = (==_iff chain.chain_id id).0 e in
        ground (
          arith,
          count-select_apart (is_chain id) (λ (c : ChainConfig). not (c.chain_id == chain.chain_id))
              chains (λ c j. rw same (ap not j)),
        )
    | inr e ↦ ground (
      arith,
      h.distinct id,
      count-select (is_chain id) (λ (c : ChainConfig). not (c.chain_id == chain.chain_id)) chains,
    )
  ];
}

-- There are a database, a chain and a key, and each key is that of its address.
pub record IsRunnable (v : Viper) (c : Crypto) (cfg : Config) : Type 0 where
  pub database : is_empty cfg.database.url ≡ false
  pub some_chain : 1 ≤ length cfg.chains
  pub chains : All (IsUsable v) cfg.chains
  pub chains_distinct : (id : ℕ) → count_if (is_chain id) cfg.chains ≤ 1
  pub some_key : 1 ≤ length cfg.keys
  pub keys : All (IsDerived c) cfg.keys
  pub keys_distinct : (addr : ℕ) → count_if (is_key_of addr) cfg.keys ≤ 1

module _ (v : Viper) where
  on_urls-IsUsable :
      (chain_id : ℕ) (urls : List Text) → Ensures (IsUsable v) (on_urls v chain_id urls)
  unfolding chain_of
  on_urls-IsUsable chain_id [] = tt
  on_urls-IsUsable chain_id (url ∷ urls) =
      go _ (parse_tokens-IsListed v _ (setting v chain_id (codes ".tokens")) _ [] tt)
    where
      go :
          (r : Result ConfigError (List (Text × TokenConfig)))
          → Ensures (All (IsListed v (chain_of v chain_id (url ∷ urls) []).native_token_symbol)) r
          → Ensures (IsUsable v) (on_tokens v chain_id (url ∷ urls) r)
      go (err e) h = tt
      go (ok tokens) h = record {
        has_endpoint = omega arith;
        tokens = h;
        coin = coin_is_no_token v _ tokens h;
      }

  parse_chain-IsUsable : (chain_id : ℕ) → Ensures (IsUsable v) (parse_chain v chain_id)
  unfolding parse_chain
  parse_chain-IsUsable chain_id = on_urls-IsUsable chain_id _

  load_chains-AreUsable :
      (names : List Text) (chains : List ChainConfig)
      → AreUsable v chains
      → Ensures (AreUsable v) (load_chains v names chains)
  unfolding load_chains
  load_chains-AreUsable [] chains h = h
  load_chains-AreUsable (name ∷ names) chains h = named (parse_uint name) (λ chain k.
      load_chains-AreUsable names (chain ∷ without chain.chain_id chains)
        (added-AreUsable v chain chains k h))
    where
      added :
          (r : Result ConfigError ChainConfig)
          → Ensures (IsUsable v) r
          → ((chain : ChainConfig)
              → IsUsable v chain
              → Ensures (AreUsable v) (load_chains v names (chain ∷ without chain.chain_id chains)))
          → Ensures (AreUsable v) (add_chain v r chains (λ cs. load_chains v names cs))
      added (err e) k rest = tt
      added (ok chain) k rest = rest chain k

      named :
          (o : Option ℕ)
          → ((chain : ChainConfig)
              → IsUsable v chain
              → Ensures (AreUsable v) (load_chains v names (chain ∷ without chain.chain_id chains)))
          → Ensures (AreUsable v) (on_chain_key v name o chains (λ cs. load_chains v names cs))
      named none rest = tt
      named (some chain_id) rest =
          added (parse_chain v chain_id) (parse_chain-IsUsable chain_id) rest

  module _ (c : Crypto) where
    on_keys-IsRunnable :
        (chains : List ChainConfig) (r : Result ConfigError Loaded)
        → is_empty (parse_database v).url ≡ false
        → 1 ≤ length chains
        → AreUsable v chains
        → Ensures (KeysAreDerived c) r
        → Ensures (IsRunnable v c) (on_keys v chains r)
    on_keys-IsRunnable chains (err e) db some_chain usable h = tt
    on_keys-IsRunnable chains (ok l) db some_chain usable h = with_keys l.keys h.derived h.distinct
      where
        with_keys :
            (keys : List (ℕ × ℕ))
            → All (IsDerived c) keys
            → ((addr : ℕ) → count_if (is_key_of addr) keys ≤ 1)
            → Ensures (IsRunnable v c) (on_loaded v chains keys)
        with_keys [] k one = tt
        with_keys (key ∷ keys) k one = record {
          database = db;
          some_chain = some_chain;
          chains = usable.usable;
          chains_distinct = usable.distinct;
          some_key = omega arith;
          keys = k;
          keys_distinct = one;
        }

    on_chains-IsRunnable :
        (r : Result ConfigError (List ChainConfig)) (keys : Result ConfigError Loaded)
        → is_empty (parse_database v).url ≡ false
        → Ensures (AreUsable v) r
        → Ensures (KeysAreDerived c) keys
        → Ensures (IsRunnable v c) (on_chains v r keys)
    on_chains-IsRunnable (err e) keys db usable h = tt
    on_chains-IsRunnable (ok []) keys db usable h = tt
    on_chains-IsRunnable (ok (chain ∷ chains)) keys db usable h =
        on_keys-IsRunnable (chain ∷ chains) keys db (omega arith) usable h

    -- A configuration that `Load` accepts names a database, at least one chain and at least one key.
    -- Each chain has an endpoint and a whitelist in which no token has the symbol of the coin and
    -- each has a contract whose text spells an address, and each key derives to its address. No two
    -- chains have the same number, and no two keys the same address.
    pub load-IsRunnable :
        (readable : Bool) (environ : List Text)
        → Ensures (IsRunnable v c) (load v c readable environ)
    unfolding load
    load-IsRunnable false environ = tt
    load-IsRunnable true environ = elim (Bool-cases (is_empty (parse_database v).url)) [
      | inl e ↦ rw e tt
      | inr e ↦ rw e (
          on_chains-IsRunnable (load_chains v (v.get_string_map (codes "chains")) [])
            (load_keys c environ (record { keys = []; cleared = [] })) e
            (load_chains-AreUsable (v.get_string_map (codes "chains")) []
              (record { usable = tt; distinct = λ id. omega arith }))
            (load_keys-KeysAreDerived c environ (record { keys = []; cleared = [] })
              (no_keys-KeysAreDerived c)))
    ]

  unread :
      (key s : Text)
      → v.get_string key ≡ some s
      → set_string s ≡ none
      → big_int_from_viper v key ≡ none
  unfolding big_int_from_viper
  unread key s found bad =
      rw found (elim (Bool-cases (is_empty s)) [ inl e ↦ rw e refl | inr e ↦ rw (e, bad) refl ])

  -- A configured limit for the transfers of coins that is no decimal numeral, such as one with a
  -- unit or an exponent, is dropped without an error: every positive amount of 256 bits passes.
  pub misspelt_limit :
      (chain_id : ℕ) (urls : List Text) (tokens : List (Text × TokenConfig)) (s : Text) (n : ℕ)
      → v.get_string (setting v chain_id (codes ".native-max-transfer")) ≡ some s
      → set_string s ≡ none
      → 0 < n
      → n ≤ max_uint256
      → check_amount (ok (pos n)) (chain_of v chain_id urls tokens).native_max_transfer ≡ ok (pos n)
  unfolding chain_of check_amount
  misspelt_limit chain_id urls tokens s n found bad positive fits =
      rw (unread _ s found bad) (ground arith)
