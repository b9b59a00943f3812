-- ===== src/Service/Boot.antt =====
-- `run` of cmd/tx-sender/main.go up to the HTTP server. The listener and the shutdown are the
-- operating system's.
use evm_tx_sender.Prelude.{
  ℕ, Text, Bool, true, false, Option, none, some, Result, ok, err, List, [], ◌∷◌, ◌++◌, ◌==◌,
  if◌then◌else◌,
}
use evm_tx_sender.Domain.{ChainConfig}
use evm_tx_sender.Repo.{Db}
use evm_tx_sender.Client.{Endpoint}
use evm_tx_sender.Client.Calls.{new_client, latest_base_fee}
use evm_tx_sender.Config.{Viper, Crypto, Config, ConfigError, load, addresses_of}
use evm_tx_sender.Manager.{Pair, PairAnswers, init_nonces}
use evm_tx_sender.Manager.Launch.{Launched, start}

pub data BootError : Type 0 where
  bad_config : ConfigError → BootError
  bad_database : Text → BootError
  bad_client : ℕ → Text → BootError
  bad_nonces : Text → BootError

-- What the surroundings answer: the errors of the four steps that connect the database and migrate
-- it, the endpoints, the latest header of a chain by an endpoint, and the calls of `InitNonces`.
pub record BootAnswers : Type 0 where
  pub readable : Bool
  pub environ : List Text
  pub parse_link : Option Text
  pub connect_link : Option Text
  pub ping_link : Option Text
  pub migrate_link : Option Text
  pub dial : Text → Option ℕ
  pub header : ℕ → ℕ → Result Text (Option ℕ)
  pub reset_link : Option Text
  pub now : ℕ
  pub pair_answers : ℕ → ℕ → PairAnswers

-- A chain with its client, which stands in the map `clients` under the number of the chain.
pub record ChainRuntime : Type 0 where
  pub chain : ChainConfig
  pub endpoints : List Endpoint

pub record Started : Type 0 where
  pub clients : List ChainRuntime
  pub keys : List (ℕ × ℕ)
  pub launched : Launched

abbrev pub on_new_client :
    ChainConfig
    → Result Text (List Endpoint)
    → Result BootError (List ChainRuntime)
    → Result BootError (List ChainRuntime)
on_new_client chain (err e) rest = err (bad_client chain.chain_id e)
on_new_client chain (ok eps) (err e) = err e
on_new_client chain (ok eps) (ok clients) = ok (record { chain = chain; endpoints = eps } ∷ clients)

-- The loop that makes the clients, up to the first error.
unfoldable pub connect_clients :
    (Text → Option ℕ) → List ChainConfig → Result BootError (List ChainRuntime)
unfolding new_client
connect_clients dial [] = ok []
connect_clients dial (chain ∷ chains) =
    on_new_client chain (new_client dial chain.rpc_endpoints) (connect_clients dial chains)

abbrev pub succeeded : Result Text ℕ → Bool
succeeded (ok fee) = true
succeeded (err e) = false

-- One round of the loop that detects EIP-1559: any error counts as a chain without it.
unfoldable pub detect : (ℕ → ℕ → Result Text (Option ℕ)) → ChainRuntime → ChainRuntime
unfolding latest_base_fee
detect header rt =
    let (fee, eps) = latest_base_fee (header rt.chain.chain_id) rt.endpoints in
    record { chain = record rt.chain { supports_eip1559 = succeeded fee }; endpoints = eps }

unfoldable pub detect_all : (ℕ → ℕ → Result Text (Option ℕ)) → List ChainRuntime → List ChainRuntime
unfolding detect
detect_all header [] = []
detect_all header (rt ∷ rts) = detect header rt ∷ detect_all header rts

unfoldable pub pairs_with : (ℕ → ℕ → PairAnswers) → ℕ → List ChainRuntime → List Pair
pairs_with answers addr [] = []
pairs_with answers addr (rt ∷ rts) =
    record { sender = addr; chain_id = rt.chain.chain_id; answers = answers addr rt.chain.chain_id }
    ∷ pairs_with answers addr rts

-- The pairs of `InitNonces`: every address with every client.
unfoldable pub all_pairs : (ℕ → ℕ → PairAnswers) → List ℕ → List ChainRuntime → List Pair
unfolding pairs_with
all_pairs answers [] rts = []
all_pairs answers (addr ∷ addrs) rts = pairs_with answers addr rts ++ all_pairs answers addrs rts

unfoldable pub has_client : List ChainRuntime → ℕ → Bool
has_client [] id = false
has_client (rt ∷ rts) id = if rt.chain.chain_id == id then true else has_client rts id

unfoldable pub chains_of : List ChainRuntime → List ChainConfig
chains_of [] = []
chains_of (rt ∷ rts) = rt.chain ∷ chains_of rts

-- `mgr.Start`, if `InitNonces` had no error.
abbrev pub on_nonces :
    List (ℕ × ℕ) → List ChainRuntime → Db × Option Text → Result BootError Started × Db
on_nonces keys rts (db, some e) = (err (bad_nonces e), db)
on_nonces keys rts (db, none) = (
  ok (record {
    clients = rts;
    keys = keys;
    launched = start (has_client rts) (addresses_of keys) (chains_of rts);
  }),
  db,
)

abbrev pub on_clients :
    BootAnswers
    → List (ℕ × ℕ)
    → Result BootError (List ChainRuntime)
    → Db
    → Result BootError Started × Db
on_clients answers keys (err e) db = (err e, db)
on_clients answers keys (ok clients) db = on_nonces keys (detect_all answers.header clients) (
    init_nonces answers.reset_link answers.now
      (all_pairs answers.pair_answers (addresses_of keys) (detect_all answers.header clients)) db)

abbrev pub or_else : Option Text → Option Text → Option Text
or_else none e = e
or_else (some d) e = some d

abbrev pub on_database : BootAnswers → Config → Option Text → Db → Result BootError Started × Db
on_database answers cfg (some e) db = (err (bad_database e), db)
on_database answers cfg none db =
    on_clients answers cfg.keys (connect_clients answers.dial cfg.chains) db

abbrev pub on_config : BootAnswers → Result ConfigError Config → Db → Result BootError Started × Db
on_config answers (err e) db = (err (bad_config e), db)
on_config answers (ok cfg) db =
    on_database answers cfg
      (or_else answers.parse_link
        (or_else answers.connect_link (or_else answers.ping_link answers.migrate_link)))
      db

-- The start of the service, with the tables behind it.
unfoldable pub boot : Viper → Crypto → BootAnswers → Db → Result BootError Started × Db
unfolding load connect_clients detect_all all_pairs has_client chains_of
boot v c answers db = on_config answers (load v c answers.readable answers.environ) db
