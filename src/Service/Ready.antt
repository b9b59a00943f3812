-- ===== src/Service/Ready.antt =====
-- What a start leaves behind.
use evm_tx_sender.Prelude.{
  ℕ, ◌≤◌, ◌≡◌, refl, ◌∙◌, Text, true, Option, none, some, Result, ok, err, Ensures, List, [], ◌∷◌,
  Bool-cases, inl, inr, count_if, arith, ◌&&◌, ◌==◌, if◌then◌else◌,
}
use evm_tx_sender.Domain.{ChainConfig}
use evm_tx_sender.Repo.{Db}
use evm_tx_sender.Client.{Endpoint}
use evm_tx_sender.Client.Calls.{new_client}
use evm_tx_sender.Config.{
  Viper, Crypto, Config, ConfigError, load, addresses_of, has_address, find_key,
}
use evm_tx_sender.Config.Signers.{is_key_of}
use evm_tx_sender.Config.Sound.{IsRunnable, load-IsRunnable}
use evm_tx_sender.Manager.Launch.{start}
use evm_tx_sender.Manager.Wake.{is_of}
use evm_tx_sender.Manager.Pairs.{addresses, chains_with, count-start_pipelines}
use evm_tx_sender.Service.Boot.{
  BootError, BootAnswers, ChainRuntime, Started, on_new_client, connect_clients, detect, detect_all,
  has_client, chains_of, on_nonces, on_clients, on_database, on_config, boot,
}

-- Each address with a key has exactly one pipeline on each chain with a client, and no other pair
-- has one.
abbrev pub IsReady : Started → Type 0
IsReady s =
    (addr id : ℕ)
    → count_if (is_of addr id) s.launched.pipelines
      ≡ (if has_client s.clients id && has_address s.keys addr then 1 else 0)

count-addresses :
    (addr : ℕ) (keys : List (ℕ × ℕ))
    → addresses addr (addresses_of keys) ≡ count_if (is_key_of addr) keys
unfolding addresses_of
count-addresses addr [] = refl
count-addresses addr ((a, k) ∷ keys) = omega (arith, count-addresses addr keys)

-- A client stands for one chain of the configuration.
clients_of_chains :
    (dial : Text → Option ℕ) (chains : List ChainConfig) (id : ℕ)
    → Ensures
        (λ rts. chains_with id (chains_of rts) ≡ chains_with id chains)
        (connect_clients dial chains)
unfolding connect_clients chains_of
clients_of_chains dial [] id = refl
clients_of_chains dial (chain ∷ chains) id =
    go (new_client dial chain.rpc_endpoints) (connect_clients dial chains)
      (clients_of_chains dial chains id)
  where
    go :
        (r : Result Text (List Endpoint)) (rest : Result BootError (List ChainRuntime))
        → Ensures (λ rts. chains_with id (chains_of rts) ≡ chains_with id chains) rest
        → Ensures
            (λ rts. chains_with id (chains_of rts) ≡ chains_with id (chain ∷ chains))
            (on_new_client chain r rest)
    go (err e) rest h = tt
    go (ok eps) (err e) h = tt
    go (ok eps) (ok rts) h = omega (arith, h)

detect_all_keeps :
    (header : ℕ → ℕ → Result Text (Option ℕ)) (rts : List ChainRuntime) (id : ℕ)
    → chains_with id (chains_of (detect_all header rts)) ≡ chains_with id (chains_of rts)
unfolding detect_all chains_of detect
detect_all_keeps header [] id = refl
detect_all_keeps header (rt ∷ rts) id = omega (arith, detect_all_keeps header rts id)

known_once :
    (rts : List ChainRuntime) (id : ℕ)
    → has_client rts id ≡ true
    → 1 ≤ chains_with id (chains_of rts)
unfolding has_client chains_of
known_once [] id h = cc
known_once (rt ∷ rts) id h = ground (arith, known_once rts id)

keys_once :
    (addr : ℕ) (keys : List (ℕ × ℕ))
    → count_if (is_key_of addr) keys ≤ 1
    → count_if (is_key_of addr) keys ≡ (if has_address keys addr then 1 else 0)
unfolding has_address find_key
keys_once addr [] h = refl
keys_once addr ((a, k) ∷ keys) h = elim (Bool-cases (a == addr)) [
  | inl e ↦ rw e (omega (arith, rw e at h))
  | inr e ↦ rw e (omega (arith, keys_once addr keys (omega (arith, rw e at h))))
]

start-IsReady :
    (keys : List (ℕ × ℕ)) (rts : List ChainRuntime)
    → ((addr : ℕ) → count_if (is_key_of addr) keys ≤ 1)
    → ((id : ℕ) → chains_with id (chains_of rts) ≤ 1)
    → IsReady (record {
      clients = rts;
      keys = keys;
      launched = start (has_client rts) (addresses_of keys) (chains_of rts);
    })
unfolding start
start-IsReady keys rts one_key one_chain addr id =
    let key = count-addresses addr keys ∙ keys_once addr keys (one_key addr) in
    count-start_pipelines addr id (has_client rts) (addresses_of keys) (chains_of rts)
    ∙ elim (Bool-cases (has_client rts id)) [
      | inl known ↦
          let chains : chains_with id (chains_of rts) ≡ 1 =
            omega (arith, one_chain id, known_once rts id known) in
          rw (known, chains, key) (ground arith)
      | inr unknown ↦ rw unknown (omega arith)
    ]

on_nonces-IsReady :
    (keys : List (ℕ × ℕ)) (rts : List ChainRuntime) (out : Db × Option Text)
    → ((addr : ℕ) → count_if (is_key_of addr) keys ≤ 1)
    → ((id : ℕ) → chains_with id (chains_of rts) ≤ 1)
    → Ensures IsReady (on_nonces keys rts out).0
on_nonces-IsReady keys rts (db, some e) one_key one_chain = tt
on_nonces-IsReady keys rts (db, none) one_key one_chain = start-IsReady keys rts one_key one_chain

-- A start without an error, with whatever configuration, database, endpoints and nodes, runs exactly
-- one pipeline for each address that has a key on each chain that has a client, and none for any
-- other pair.
pub boot-IsReady :
    (v : Viper) (c : Crypto) (answers : BootAnswers) (db : Db)
    → Ensures IsReady (boot v c answers db).0
unfolding boot
boot-IsReady v c answers db =
    configured (load v c answers.readable answers.environ)
      (load-IsRunnable v c answers.readable answers.environ)
  where
    connected :
        (cfg : Config) (r : Result BootError (List ChainRuntime))
        → IsRunnable v c cfg
        → ((id : ℕ) → Ensures (λ rts. chains_with id (chains_of rts) ≡ chains_with id cfg.chains) r)
        → Ensures IsReady (on_clients answers cfg.keys r db).0
    connected cfg (err e) h same = tt
    connected cfg (ok rts) h same =
        on_nonces-IsReady cfg.keys (detect_all answers.header rts) _ h.keys_distinct (λ id.
          omega (arith, detect_all_keeps answers.header rts id, same id, h.chains_distinct id))

    database :
        (cfg : Config) (o : Option Text)
        → IsRunnable v c cfg
        → Ensures IsReady (on_database answers cfg o db).0
    database cfg (some e) h = tt
    database cfg none h =
        connected cfg (connect_clients answers.dial cfg.chains) h
          (λ id. clients_of_chains answers.dial cfg.chains id)

    configured :
        (r : Result ConfigError Config)
        → Ensures (IsRunnable v c) r
        → Ensures IsReady (on_config answers r db).0
    configured (err e) h = tt
    configured (ok cfg) h = database cfg _ h
