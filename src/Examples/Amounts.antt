-- ===== src/Examples/Amounts.antt =====
-- Amounts and fees.
use evm_tx_sender.Prelude.{ℕ, ◌≡◌, refl, pos, negsuc, some, ok, codes, arith}
use evm_tx_sender.Domain.{Priority}
use evm_tx_sender.Domain.Amount.{parse_amount_to_smallest_unit}
use evm_tx_sender.Domain.Amount.Decimal.{parse_decimal}
use evm_tx_sender.Domain.Amount.Signs.{parse_inner_minus}
use evm_tx_sender.Gas.{bump_gas, estimate, estimate_from, estimate_eip1559, dynamic_params}
use evm_tx_sender.Gas.Bounds.{FitsBounds, estimate_fits}
use evm_tx_sender.Gas.Replacement.{Raised, AtMostDoubled, bump_gas_dynamic}
use evm_tx_sender.Examples.{fees, chain, replies}

parse_decimal_example :
    parse_amount_to_smallest_unit (codes "1.5") 18 ≡ ok (pos 1500000000000000000)
parse_decimal_example =
    parse_decimal (codes "1") (codes "5") 18 ((omega arith, omega arith), tt)
      ((omega arith, omega arith), tt) (omega arith)

parse_inner_minus_example : parse_amount_to_smallest_unit (codes "0-5") 0 ≡ ok (negsuc 4)
parse_inner_minus_example =
    parse_inner_minus (codes "5") 0 (λ h. cc) ((omega arith, omega arith), tt)

estimate_fits_example :
    FitsBounds chain (dynamic_params chain Priority.normal 42000 100 10)
    × ((units : ℕ) × (replies.estimate_gas ≡ ok units)
        × ((dynamic_params chain Priority.normal 42000 100 10).gas_limit
            ≡ chain.scale_gas_limit units))
unfolding estimate estimate_from estimate_eip1559
estimate_fits_example =
    estimate_fits replies chain Priority.normal (dynamic_params chain Priority.normal 42000 100 10)
      (record { priority_ordered = tt; max_fee_ordered = tt }) refl

bump_gas_dynamic_example :
    let q = bump_gas fees 1 in
    Raised (some 300) q.max_fee_per_gas
    × Raised (some 100) q.max_priority_fee_per_gas
    × AtMostDoubled (some 300) q.max_fee_per_gas
    × AtMostDoubled (some 100) q.max_priority_fee_per_gas
    × (q.gas_price ≡ some 200)
    × (q.gas_limit ≡ 21000)
    × (q.tx_type ≡ 2)
bump_gas_dynamic_example = bump_gas_dynamic fees 1 refl (omega arith) (omega arith) (omega arith)
