-- ===== src/Domain/Amount.antt =====
-- `ParseAmountToSmallestUnit` of internal/domain/transfer.go, with the functions of Go's strings
-- and math/big that it calls, on ASCII texts. What its results mean is in the modules below.
pub mod Digits
pub mod Decimal
pub mod Signs
pub mod Print
use evm_tx_sender.Prelude.{
  ℕ, zero, suc, ◌+◌, ◌-◌, ◌*◌, ◌^◌, Text, ℤ, pos, negsuc, Bool, true, false, not, ◌&&◌, ◌||◌,
  Option, none, some, Result, ok, err, List, [], ◌∷◌, ◌++◌, ◌≡◌, refl, codes, is_empty, length,
  replicate, ltb, leb, ◌==◌, if◌then◌else◌,
}

abbrev pub max_uint256 : ℕ
max_uint256 = 2 ^ 256 - 1

pub data AmountError : Type 0 where
  empty_amount negative_amount invalid_numeric : AmountError
  too_many_decimals : ℕ → ℕ → AmountError

-- `\t \n \v \f \r` and the blank.
abbrev pub is_space : ℕ → Bool
is_space c = c == 32 || (leb 9 c && leb c 13)

pub trim_left : Text → Text
trim_left [] = []
trim_left (c ∷ s) = if is_space c then trim_left s else c ∷ s

pub trim_right : Text → Text
trim_right [] = []
trim_right (c ∷ s) = let r = trim_right s in if is_space c && is_empty r then [] else c ∷ r

-- `strings.TrimSpace`
pub trim_space : Text → Text
unfolding trim_left trim_right
trim_space s = trim_right (trim_left s)

abbrev pub starts_with_minus : Text → Bool
starts_with_minus [] = false
starts_with_minus (c ∷ s) = c == b'-'

-- `strings.SplitN(s, ".", 2)`: what stands before the first dot, and what stands behind it.
pub split_dot : Text → Text × Option Text
split_dot [] = ([], none)
split_dot (c ∷ s) =
    let (before, behind) = split_dot s in if c == b'.' then ([], some s) else (c ∷ before, behind)

-- `strings.TrimLeft(s, "0")`
pub strip_zeros : Text → Text
strip_zeros [] = []
strip_zeros (c ∷ s) = if c == b'0' then strip_zeros s else c ∷ s

-- The digits of `big.Int.SetString` at base ten, behind the value `n`.
unfoldable pub scan_digits : ℕ → Text → Option ℕ
scan_digits n [] = some n
scan_digits n (c ∷ s) =
    let rest = scan_digits (n * 10 + (c - b'0')) s in
    if leb b'0' c && leb c b'9' then rest else none

-- At least one digit has to be there.
unfoldable pub unsigned : Text → Option ℕ
unfolding scan_digits
unsigned [] = none
unsigned (c ∷ s) = scan_digits 0 (c ∷ s)

abbrev pub negate : ℕ → ℤ
negate zero = pos 0
negate (suc n) = negsuc n

abbrev positive_result : Option ℕ → Option ℤ
positive_result none = none
positive_result (some n) = some (pos n)

abbrev negative_result : Option ℕ → Option ℤ
negative_result none = none
negative_result (some n) = some (negate n)

-- `big.Int.SetString(s, 10)`: one sign may stand in front.
unfoldable pub set_string : Text → Option ℤ
unfolding unsigned
set_string [] = none
set_string (c ∷ s) =
    if c == b'+'
    then positive_result (unsigned s)
    else if c == b'-'
    then negative_result (unsigned s)
    else positive_result (unsigned (c ∷ s))

abbrev pub or_zero : Text → Text
or_zero [] = b'0' ∷ []
or_zero (c ∷ s) = c ∷ s

abbrev pub or_empty : Option Text → Text
or_empty none = []
or_empty (some s) = s

abbrev pub to_result : Option ℤ → Result AmountError ℤ
to_result none = err invalid_numeric
to_result (some v) = ok v

-- The part of the parser behind the split.
pub combine : Text → Text → ℕ → Result AmountError ℤ
unfolding strip_zeros set_string
combine int_part frac_part decimals =
    if ltb decimals (length frac_part)
    then err (too_many_decimals (length frac_part) decimals)
    else to_result (
        set_string (
          or_zero (
            strip_zeros
              (or_zero int_part ++ (frac_part ++ replicate (decimals - length frac_part) b'0')))))

unfoldable pub parse_amount_to_smallest_unit : Text → ℕ → Result AmountError ℤ
unfolding trim_space split_dot combine
parse_amount_to_smallest_unit amount decimals =
    if is_empty amount
    then err empty_amount
    else let trimmed = trim_space amount in
      if starts_with_minus trimmed
      then err negative_amount
      else let parts = split_dot trimmed in combine parts.0 (or_empty parts.1) decimals

plain : parse_amount_to_smallest_unit (codes " 1500.50 ") 6 ≡ ok (pos 1500500000)
unfolding parse_amount_to_smallest_unit
plain = refl

blank : parse_amount_to_smallest_unit (codes "  ") 6 ≡ ok (pos 0)
unfolding parse_amount_to_smallest_unit
blank = refl

two_dots : parse_amount_to_smallest_unit (codes "1.2.3") 6 ≡ err invalid_numeric
unfolding parse_amount_to_smallest_unit
two_dots = refl
