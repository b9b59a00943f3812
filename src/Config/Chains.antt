-- ===== src/Config/Chains.antt =====
-- `loadChains`, `parseChain`, `parseTokens` and the helpers over viper. A signed number of the
-- configuration that the program uses as a count or a duration, and a fee bound, is not negative
-- here.
use evm_tx_sender.Prelude.{
  ℕ, ◌*◌, ◌^◌, ◌||◌, Text, ℤ, pos, pos_part, Bool, true, not, Option, none, some, Result, ok, err,
  List, [], ◌∷◌, ◌++◌, codes, is_empty, to_lower, to_upper, select, text_eq, ◌==◌, if◌then◌else◌,
}
use evm_tx_sender.Domain.{ChainConfig, TokenConfig}
use evm_tx_sender.Domain.Amount.{set_string}
use evm_tx_sender.Domain.Amount.Print.{print_nat}
use evm_tx_sender.Repo.Scan.{to_uint8, option_map}
use evm_tx_sender.Api.{parse_uint}

-- What viper gives for a key: `none` where neither the environment nor the file sets it. The map
-- and the slice are empty there. `multiplier` is the scaling of the gas limit by a `float64`, and
-- `parse_duration` is `time.ParseDuration`.
pub record Viper : Type 0 where
  pub get_string : Text → Option Text
  pub get_int : Text → Option ℤ
  pub get_bool : Text → Option Bool
  pub get_multiplier : Text → Option (ℕ → ℕ)
  pub default_multiplier : ℕ → ℕ
  pub get_string_map : Text → List Text
  pub get_string_slice : Text → List Text
  pub parse_duration : Text → Option ℕ
  pub is_hex_address : Text → Bool
  pub hex_to_address : Text → ℕ

pub data ConfigError : Type 0 where
  unreadable_file database_url_required no_chains no_keys rpc_urls_required : ConfigError
  invalid_chain_id symbol_conflict invalid_token_address invalid_key_address : Text → ConfigError
  invalid_private_key address_mismatch entry_without_value : Text → ConfigError

abbrev pub or_default {ℓ} : {A : Type ℓ} → A → Option A → A
or_default d none = d
or_default d (some a) = a

-- `viper.GetString` without a default.
abbrev pub string_of : Option Text → Text
string_of o = or_default [] o

-- The chains but one.
abbrev pub without : ℕ → List ChainConfig → List ChainConfig
without chain_id chains = select (λ (c : ChainConfig). not (c.chain_id == chain_id)) chains

module _ (v : Viper) where
  abbrev on_duration : ℕ → Option Text → ℕ
  on_duration default none = default
  on_duration default (some s) = or_default default (v.parse_duration s)

  -- `viperGetOrDefaultDuration`: a text that is no duration gives the default.
  unfoldable pub duration_or_default : Text → ℕ → ℕ
  duration_or_default key default = on_duration default (v.get_string key)

  -- `bigIntFromViper`: nil for a key that is not set, and also for a text that is no number.
  unfoldable pub big_int_from_viper : Text → Option ℤ
  big_int_from_viper key =
      let s = string_of (v.get_string key) in if is_empty s then none else set_string s

  abbrev pub token_prefix : Text → Text → Text
  token_prefix prefix symbol = prefix ++ b'.' ∷ to_lower symbol

  abbrev pub token_address : Text → Text → Text
  token_address prefix symbol =
      string_of (v.get_string (token_prefix prefix symbol ++ codes ".address"))

  abbrev pub token_of : Text → Text → TokenConfig
  token_of prefix symbol = record {
    symbol = symbol;
    contract_address = v.hex_to_address (token_address prefix symbol);
    decimals =
        to_uint8
          (or_default (pos 18) (v.get_int (token_prefix prefix symbol ++ codes ".decimals")));
    max_transfer = big_int_from_viper (token_prefix prefix symbol ++ codes ".max-transfer");
    enabled = or_default true (v.get_bool (token_prefix prefix symbol ++ codes ".enabled"));
  }

  -- Whether a token, by its symbol in upper case, is refused.
  abbrev pub refused : Text → Text → Text → Option ConfigError
  refused native prefix symbol =
      if text_eq symbol (to_upper native)
      then some (symbol_conflict symbol)
      else if is_empty (token_address prefix symbol)
          || not (v.is_hex_address (token_address prefix symbol))
      then some (invalid_token_address symbol)
      else none

  abbrev pub add_token :
      Option ConfigError
      → Text
      → TokenConfig
      → List (Text × TokenConfig)
      → (List (Text × TokenConfig) → Result ConfigError (List (Text × TokenConfig)))
      → Result ConfigError (List (Text × TokenConfig))
  add_token (some e) symbol token whitelist next = err e
  add_token none symbol token whitelist next = next ((symbol, token) ∷ whitelist)

  -- The loop of `parseTokens`; an assignment to the map hides an older one.
  unfoldable pub parse_tokens :
      Text
      → Text
      → List Text
      → List (Text × TokenConfig)
      → Result ConfigError (List (Text × TokenConfig))
  parse_tokens native prefix [] whitelist = ok whitelist
  parse_tokens native prefix (name ∷ names) whitelist =
      let symbol = to_upper name in
      add_token (refused native prefix symbol) symbol (token_of prefix symbol) whitelist
        λ added. parse_tokens native prefix names added

  -- The key of a setting of a chain.
  abbrev pub setting : ℕ → Text → Text
  setting chain_id name = codes "chains." ++ (print_nat chain_id ++ name)

  abbrev native_symbol : ℕ → Text
  native_symbol chain_id =
      or_default (codes "ETH") (v.get_string (setting chain_id (codes ".native-symbol")))

  abbrev fee_bound : ℕ → Text → Option ℕ
  fee_bound chain_id name = option_map pos_part (big_int_from_viper (setting chain_id name))

  -- The chain, with the endpoints and the tokens read.
  unfoldable pub chain_of : ℕ → List Text → List (Text × TokenConfig) → ChainConfig
  unfolding big_int_from_viper duration_or_default
  chain_of chain_id urls tokens = record {
    chain_id = chain_id;
    name =
        or_default (codes "chain-" ++ print_nat chain_id)
          (v.get_string (setting chain_id (codes ".name")));
    rpc_endpoints = urls;
    block_time = duration_or_default (setting chain_id (codes ".block-time")) (12 * 10 ^ 9);
    confirmation_blocks =
        pos_part
          (or_default (pos 12) (v.get_int (setting chain_id (codes ".confirmation-blocks"))));
    supports_eip1559 = true;
    scale_gas_limit =
        or_default v.default_multiplier
          (v.get_multiplier (setting chain_id (codes ".gas-limit-multiplier")));
    min_max_fee = fee_bound chain_id (codes ".min-max-fee");
    max_max_fee = fee_bound chain_id (codes ".max-max-fee");
    min_priority_fee = fee_bound chain_id (codes ".min-priority-fee");
    max_priority_fee = fee_bound chain_id (codes ".max-priority-fee");
    receipt_chunk_size =
        pos_part (or_default (pos 50) (v.get_int (setting chain_id (codes ".receipt-chunk-size"))));
    stuck_threshold =
        duration_or_default (setting chain_id (codes ".stuck-threshold")) (180 * 10 ^ 9);
    gas_bump_interval =
        duration_or_default (setting chain_id (codes ".gas-bump-interval")) (30 * 10 ^ 9);
    native_token_symbol = native_symbol chain_id;
    native_token_decimals =
        to_uint8 (or_default (pos 18) (v.get_int (setting chain_id (codes ".native-decimals"))));
    native_max_transfer = big_int_from_viper (setting chain_id (codes ".native-max-transfer"));
    token_whitelist = tokens;
  }

  abbrev pub on_tokens :
      ℕ
      → List Text
      → Result ConfigError (List (Text × TokenConfig))
      → Result ConfigError ChainConfig
  on_tokens chain_id urls (err e) = err e
  on_tokens chain_id urls (ok tokens) = ok (chain_of chain_id urls tokens)

  abbrev pub on_urls : ℕ → List Text → Result ConfigError ChainConfig
  on_urls chain_id [] = err rpc_urls_required
  on_urls chain_id (url ∷ urls) = on_tokens chain_id (url ∷ urls) (
      parse_tokens (native_symbol chain_id) (setting chain_id (codes ".tokens"))
        (v.get_string_map (setting chain_id (codes ".tokens"))) [])

  unfoldable pub parse_chain : ℕ → Result ConfigError ChainConfig
  unfolding parse_tokens chain_of
  parse_chain chain_id =
      on_urls chain_id (v.get_string_slice (setting chain_id (codes ".rpc-urls")))

  -- An assignment to the map replaces the chain of the same number.
  abbrev pub add_chain :
      Result ConfigError ChainConfig
      → List ChainConfig
      → (List ChainConfig → Result ConfigError (List ChainConfig))
      → Result ConfigError (List ChainConfig)
  add_chain (err e) chains next = err e
  add_chain (ok chain) chains next = next (chain ∷ without chain.chain_id chains)

  abbrev pub on_chain_key :
      Text
      → Option ℕ
      → List ChainConfig
      → (List ChainConfig → Result ConfigError (List ChainConfig))
      → Result ConfigError (List ChainConfig)
  on_chain_key name none chains next = err (invalid_chain_id name)
  on_chain_key name (some chain_id) chains next = add_chain (parse_chain chain_id) chains next

  -- `loadChains`: the chains by their `chain_id`, of which no two are the same.
  unfoldable pub load_chains : List Text → List ChainConfig → Result ConfigError (List ChainConfig)
  unfolding parse_chain
  load_chains [] chains = ok chains
  load_chains (name ∷ names) chains =
      on_chain_key name (parse_uint name) chains λ added. load_chains names added
