-- ===== src/Api/Query.antt =====
-- The numbers that strconv reads from a query.
use evm_tx_sender.Prelude.{
  ℕ, ◌^◌, ◌-◌, Text, ℤ, pos, negsuc, Option, none, some, ltb, if◌then◌else◌,
}
use evm_tx_sender.Domain.Amount.{unsigned, set_string}

abbrev in_uint64 : Option ℕ → Option ℕ
in_uint64 none = none
in_uint64 (some n) = if ltb n (2 ^ 64) then some n else none

-- `strconv.ParseUint(s, 10, 64)`: digits only, and a number of 64 bits.
unfoldable pub parse_uint : Text → Option ℕ
parse_uint s = in_uint64 (unsigned s)

-- What `strconv.Atoi` returns beside its error: the nearest `int` to a number out of range, and
-- zero for a text that is no number.
abbrev pub saturate : Option ℤ → ℤ
saturate none = pos 0
saturate (some (pos n)) = if ltb n (2 ^ 63) then pos n else pos (2 ^ 63 - 1)
saturate (some (negsuc n)) = if ltb n (2 ^ 63) then negsuc n else negsuc (2 ^ 63 - 1)

unfoldable pub atoi : Text → ℤ
atoi s = saturate (set_string s)
