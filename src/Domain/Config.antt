-- ===== src/Domain/Config.antt =====
-- internal/domain/config.go. The multiplication of the gas limit by the float64
-- `GasLimitMultiplier` is an argument: the function that it computes on gas limits.
-- The four fee bounds are numbers: a negative one, which the configuration file could spell, is
-- outside the model.
use evm_tx_sender.Prelude.{
  ℕ, ℤ, Text, Bool, List, Option, none, some, [], ◌∷◌, text_eq, if◌then◌else◌,
}

pub record TokenConfig : Type 0 where
  pub symbol : Text
  pub contract_address : ℕ
  pub decimals : ℕ
  pub max_transfer : Option ℤ
  pub enabled : Bool

pub record ChainConfig : Type 0 where
  pub chain_id : ℕ
  pub name : Text
  pub rpc_endpoints : List Text
  pub block_time : ℕ
  pub confirmation_blocks : ℕ
  pub supports_eip1559 : Bool
  pub scale_gas_limit : ℕ → ℕ
  pub min_max_fee : Option ℕ
  pub max_max_fee : Option ℕ
  pub min_priority_fee : Option ℕ
  pub max_priority_fee : Option ℕ
  pub receipt_chunk_size : ℕ
  pub stuck_threshold : ℕ
  pub gas_bump_interval : ℕ
  pub native_token_symbol : Text
  pub native_token_decimals : ℕ
  pub native_max_transfer : Option ℤ
  pub token_whitelist : List (Text × TokenConfig)

-- The Go map lookup `chain.TokenWhitelist[token]`.
abbrev pub lookup_token : Text → List (Text × TokenConfig) → Option TokenConfig
lookup_token k [] = none
lookup_token k ((j, v) ∷ m) = if text_eq j k then some v else lookup_token k m
