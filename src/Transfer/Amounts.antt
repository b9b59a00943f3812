-- ===== src/Transfer/Amounts.antt =====
-- What `resolveTransfer` lets through.
use evm_tx_sender.Prelude.{
  to_upper, ◌≤◌, ◌<◌, ℤ, pos, negsuc, ◌≡◌, ◌≢◌, true, false, Option, none, some, ok, [], text_eq,
}
use evm_tx_sender.Domain.{ChainConfig, TokenConfig, lookup_token}
use evm_tx_sender.Domain.Amount.{max_uint256, parse_amount_to_smallest_unit}
use evm_tx_sender.Transfer.{TransferRequest, TransferHandler, Resolved, exceeds}

-- A positive amount that fits an EVM word and is within a limit, if there is one.
abbrev pub IsSendable : Option ℤ → ℤ → Type 0
IsSendable limit (negsuc n) = ⊥
IsSendable limit (pos n) = (0 < n) × (n ≤ max_uint256) × (exceeds (pos n) limit ≡ false)

-- What becomes of an accepted request.
pub data Sound (h : TransferHandler) (req : TransferRequest) (chain : ChainConfig) (p : Resolved)
    : Type 0 where
  coins :
      text_eq (to_upper req.token) (to_upper chain.native_token_symbol) ≡ true
      → parse_amount_to_smallest_unit req.amount chain.native_token_decimals ≡ ok p.value
      → IsSendable chain.native_max_transfer p.value
      → p.to_address ≡ h.hex_to_address req.recipient
      → p.payload ≡ []
      → p.token_contract ≡ none
      → Sound h req chain p
  tokens :
      (cfg : TokenConfig) (v : ℤ)
      → lookup_token (to_upper req.token) chain.token_whitelist ≡ some cfg
      → cfg.enabled ≡ true
      → parse_amount_to_smallest_unit req.amount cfg.decimals ≡ ok v
      → IsSendable cfg.max_transfer v
      → h.hex_to_address req.recipient ≢ cfg.contract_address
      → h.pack_transfer (h.hex_to_address req.recipient) v ≡ ok p.payload
      → p.value ≡ pos 0
      → p.to_address ≡ cfg.contract_address
      → p.token_contract ≡ some cfg.contract_address
      → Sound h req chain p
