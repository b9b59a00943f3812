-- ===== src/Config/Load.antt =====
-- `Load`, with the settings of the server and of the database.
use evm_tx_sender.Prelude.{
  ℕ, ◌-◌, ◌*◌, ◌^◌, ◌%◌, Text, ℤ, pos, negsuc, Bool, Result, ok, err, List, [], ◌∷◌, codes,
  is_empty, ltb, if◌then◌else◌,
}
use evm_tx_sender.Domain.{ChainConfig}
use evm_tx_sender.Config.Chains.{
  Viper, ConfigError, unreadable_file, database_url_required, no_chains, no_keys, or_default,
  duration_or_default, load_chains,
}
use evm_tx_sender.Config.Keys.{Crypto, Loaded, load_keys}

pub record ServerConfig : Type 0 where
  pub host : Text
  pub port : ℤ
  pub read_timeout : ℕ
  pub write_timeout : ℕ
  pub shutdown_timeout : ℕ

pub record DatabaseConfig : Type 0 where
  pub url : Text
  pub max_conns : ℤ
  pub min_conns : ℤ
  pub max_conn_lifetime : ℕ

pub record Config : Type 0 where
  pub server : ServerConfig
  pub database : DatabaseConfig
  pub chains : List ChainConfig
  pub keys : List (ℕ × ℕ)

-- A number of 32 bits as a signed one, and `int32(v)`.
abbrev signed32 : ℕ → ℤ
signed32 n = if ltb n (2 ^ 31) then pos n else negsuc (2 ^ 32 - 1 - n)

abbrev pub to_int32 : ℤ → ℤ
to_int32 (pos n) = signed32 (n % 2 ^ 32)
to_int32 (negsuc n) = signed32 (2 ^ 32 - 1 - n % 2 ^ 32)

module _ (v : Viper) where
  unfoldable pub parse_server : ServerConfig
  unfolding duration_or_default
  parse_server = record {
    host = or_default (codes "0.0.0.0") (v.get_string (codes "server.host"));
    port = or_default (pos 8080) (v.get_int (codes "server.port"));
    read_timeout = duration_or_default v (codes "server.read-timeout") (10 * 10 ^ 9);
    write_timeout = duration_or_default v (codes "server.write-timeout") (30 * 10 ^ 9);
    shutdown_timeout = duration_or_default v (codes "server.shutdown-timeout") (60 * 10 ^ 9);
  }

  unfoldable pub parse_database : DatabaseConfig
  unfolding duration_or_default
  parse_database = record {
    url = or_default [] (v.get_string (codes "database.url"));
    max_conns = to_int32 (or_default (pos 25) (v.get_int (codes "database.max-conns")));
    min_conns = to_int32 (or_default (pos 5) (v.get_int (codes "database.min-conns")));
    max_conn_lifetime = duration_or_default v (codes "database.max-conn-lifetime") (3600 * 10 ^ 9);
  }

  abbrev pub on_loaded : List ChainConfig → List (ℕ × ℕ) → Result ConfigError Config
  on_loaded chains [] = err no_keys
  on_loaded chains (key ∷ keys) = ok (record {
    server = parse_server;
    database = parse_database;
    chains = chains;
    keys = key ∷ keys;
  })

  abbrev pub on_keys : List ChainConfig → Result ConfigError Loaded → Result ConfigError Config
  on_keys chains (err e) = err e
  on_keys chains (ok l) = on_loaded chains l.keys

  abbrev pub on_chains :
      Result ConfigError (List ChainConfig) → Result ConfigError Loaded → Result ConfigError Config
  on_chains (err e) keys = err e
  on_chains (ok []) keys = err no_chains
  on_chains (ok (chain ∷ chains)) keys = on_keys (chain ∷ chains) keys

  -- `Load`, on whether the file could be read, if there is one.
  unfoldable pub load : Crypto → Bool → List Text → Result ConfigError Config
  unfolding load_chains load_keys parse_server parse_database
  load c readable environ =
      if readable
      then if is_empty parse_database.url
        then err database_url_required
        else on_chains (load_chains v (v.get_string_map (codes "chains")) [])
            (load_keys c environ (record { keys = []; cleared = [] }))
      else err unreadable_file
