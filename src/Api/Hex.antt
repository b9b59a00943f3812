-- ===== src/Api/Hex.antt =====
-- The calldata of a response, read back by an independent decoder.
use evm_tx_sender.Prelude.{
  ◌+◌, ◌*◌, ◌<◌, ◌/◌, ◌%◌, Text, ◌≡◌, refl, ap, Option, none, some, [], ◌∷◌, All, arith, length,
}
use evm_tx_sender.Domain.Spelling.{digit_value, digit_value-hex_digit}
use evm_tx_sender.Api.{encode_hex}

-- The bytes that a text of digits spells, two digits to a byte; `none` for an odd number of them.
unfoldable pub decode_hex : Text → Option Text
decode_hex [] = some []
decode_hex (c ∷ []) = none
decode_hex (c ∷ d ∷ s) = elim (decode_hex s) [
  | none ↦ none
  | some bytes ↦ some ((digit_value c * 16 + digit_value d) ∷ bytes)
]

-- The bytes of a text come back from its hexadecimal digits, of which each byte has two.
pub decode_hex-encode_hex :
    (s : Text)
    → All (λ b. b < 256) s
    → (decode_hex (encode_hex s) ≡ some s) × (length (encode_hex s) ≡ 2 * length s)
unfolding decode_hex encode_hex
decode_hex-encode_hex [] h = (refl, refl)
decode_hex-encode_hex (b ∷ s) h =
    let (back, size) = decode_hex-encode_hex s h.1 in
    (
      rw
          (
            back,
            digit_value-hex_digit (b / 16) (omega arith),
            digit_value-hex_digit (b % 16) (omega arith),
          )
          (ap (λ v. some (v ∷ s)) (omega arith)),
      omega arith,
    )
