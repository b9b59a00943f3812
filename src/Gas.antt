-- ===== src/Gas.antt =====
-- internal/infrastructure/ethereum/gas.go: the fees of a new transaction and of a replacement.
-- The node's answers are an argument, one for each RPC call that `Estimate` makes.
pub mod Bounds
pub mod Replacement
use evm_tx_sender.Prelude.{
  ℕ, ◌+◌, ◌*◌, ◌/◌, Text, Bool, true, false, Option, none, some, Result, ok, err, ltb, ◌==◌,
  if◌then◌else◌,
}
use evm_tx_sender.Domain.{Priority, low, normal, high, urgent, ChainConfig, GasParams}

-- What the node answers to `EstimateGas`, `LatestBaseFee`, `SuggestGasTipCap`, `SuggestGasPrice`.
pub record GasReplies : Type 0 where
  pub estimate_gas : Result Text ℕ
  pub latest_base_fee : Result Text ℕ
  pub suggest_gas_tip_cap : Result Text ℕ
  pub suggest_gas_price : Result Text ℕ

pub record Multipliers : Type 0 where
  pub tip_multiplier : ℕ
  pub fee_multiplier : ℕ

-- The map has an entry for each of the four priorities.
abbrev pub priority_multipliers : Priority → Multipliers
priority_multipliers low = record { tip_multiplier = 80; fee_multiplier = 150 }
priority_multipliers normal = record { tip_multiplier = 100; fee_multiplier = 200 }
priority_multipliers high = record { tip_multiplier = 150; fee_multiplier = 250 }
priority_multipliers urgent = record { tip_multiplier = 250; fee_multiplier = 300 }

abbrev below_min : ℕ → Option ℕ → Bool
below_min v none = false
below_min v (some m) = ltb v m

abbrev above_max : ℕ → Option ℕ → Bool
above_max v none = false
above_max v (some m) = ltb m v

abbrev pub or_value : Option ℕ → ℕ → ℕ
or_value none v = v
or_value (some m) v = m

unfoldable pub clamp : ℕ → Option ℕ → Option ℕ → ℕ
clamp v min max =
    if below_min v min then or_value min v else if above_max v max then or_value max v else v

-- The suggested tip, or one gwei where the node does not answer.
abbrev pub tip_or_default : Result Text ℕ → ℕ
tip_or_default (ok tip) = tip
tip_or_default (err e) = 1000000000

-- The fee cap is lifted to the tip.
unfoldable pub cover : ℕ → ℕ → ℕ
cover max_fee priority_fee = if ltb max_fee priority_fee then priority_fee else max_fee

unfoldable pub dynamic_params : ChainConfig → Priority → ℕ → ℕ → ℕ → GasParams
dynamic_params chain priority gas_limit base_fee suggested_tip =
    let mult = priority_multipliers priority in
    let tip = suggested_tip * mult.tip_multiplier / 100 in
    let fee = base_fee * mult.fee_multiplier / 100 + tip in
    let priority_fee = clamp tip chain.min_priority_fee chain.max_priority_fee in
    let max_fee = clamp fee chain.min_max_fee chain.max_max_fee in
    record {
      gas_limit = gas_limit;
      max_fee_per_gas = some (cover max_fee priority_fee);
      max_priority_fee_per_gas = some priority_fee;
      gas_price = none;
      tx_type = 2;
    }

-- `estimateEIP1559`, on the answers to `LatestBaseFee` and `SuggestGasTipCap`.
unfoldable pub estimate_eip1559 :
    ChainConfig → Priority → ℕ → Result Text ℕ → Result Text ℕ → Result Text GasParams
estimate_eip1559 chain priority gas_limit (err e) tip = err e
estimate_eip1559 chain priority gas_limit (ok base_fee) tip =
    ok (dynamic_params chain priority gas_limit base_fee (tip_or_default tip))

-- `estimateLegacy`, on the answer to `SuggestGasPrice`.
unfoldable pub estimate_legacy : ChainConfig → ℕ → Result Text ℕ → Result Text GasParams
estimate_legacy chain gas_limit (err e) = err e
estimate_legacy chain gas_limit (ok price) = ok (record {
  gas_limit = gas_limit;
  max_fee_per_gas = none;
  max_priority_fee_per_gas = none;
  gas_price = some (clamp price chain.min_max_fee chain.max_max_fee);
  tx_type = 0;
})

-- A failed EIP-1559 estimate falls back to the legacy one.
abbrev pub or_else : Result Text GasParams → Result Text GasParams → Result Text GasParams
or_else (ok p) fallback = ok p
or_else (err e) fallback = fallback

-- `Estimate` behind the answer to `EstimateGas`.
unfoldable pub estimate_from :
    GasReplies → ChainConfig → Priority → Result Text ℕ → Result Text GasParams
estimate_from replies chain priority (err e) = err e
estimate_from replies chain priority (ok units) =
    let gas_limit = chain.scale_gas_limit units in
    let legacy = estimate_legacy chain gas_limit replies.suggest_gas_price in
    if chain.supports_eip1559
    then or_else
        (estimate_eip1559 chain priority gas_limit replies.latest_base_fee
          replies.suggest_gas_tip_cap)
        legacy
    else legacy

unfoldable pub estimate : GasReplies → ChainConfig → Priority → Result Text GasParams
unfolding estimate_from
estimate replies chain priority = estimate_from replies chain priority replies.estimate_gas

abbrev pub bump_big_int : Option ℕ → ℕ → Option ℕ
bump_big_int none pct = none
bump_big_int (some v) pct = some (v + v * pct / 100)

abbrev pub bump_percentage : ℕ → ℕ
bump_percentage bump_number = let pct = 15 * bump_number in if ltb 100 pct then 100 else pct

abbrev is_dynamic : ℕ → Bool
is_dynamic tx_type = tx_type == 2

unfoldable pub bump_gas : GasParams → ℕ → GasParams
bump_gas current bump_number =
    let pct = bump_percentage bump_number in
    if is_dynamic current.tx_type
    then record current {
      max_fee_per_gas = bump_big_int current.max_fee_per_gas pct;
      max_priority_fee_per_gas = bump_big_int current.max_priority_fee_per_gas pct;
    }
    else record current { gas_price = bump_big_int current.gas_price pct }
