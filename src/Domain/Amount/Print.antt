-- ===== src/Domain/Amount/Print.antt =====
-- `big.Int.String`, and that `big.Int.SetString` reads it back.
use evm_tx_sender.Prelude.{
  ℕ, zero, suc, ◌+◌, ◌/◌, ◌%◌, ◌<◌, ◌≤◌, Text, ℤ, pos, negsuc, some, [], ◌∷◌, ◌++◌, ◌≡◌, refl, ap,
  ◌∙◌, inl, inr, arith, All, All-append, length, length-append, ltb, Bool-cases, if◌then◌else◌,
}
use evm_tx_sender.Domain.Amount.{set_string, unsigned}
use evm_tx_sender.Domain.Amount.Digits.{IsDigit, value, value_from-append}
use evm_tx_sender.Domain.Amount.Decimal.{scan_digits-value}

unfoldable pub decimal_digits : ℕ → ℕ → Text
decimal_digits zero n = []
decimal_digits (suc f) n =
    let front = decimal_digits f (n / 10) in
    if ltb n 10 then (b'0' + n) ∷ [] else front ++ (b'0' + n % 10) ∷ []

-- A number has fewer digits than its successor's size.
unfoldable pub print_nat : ℕ → Text
unfolding decimal_digits
print_nat n = decimal_digits (suc n) n

-- `big.Int.String`
unfoldable pub print_int : ℤ → Text
unfolding print_nat
print_int (pos n) = print_nat n
print_int (negsuc n) = b'-' ∷ print_nat (suc n)

-- What the digits of a number are.
record Prints (n : ℕ) (s : Text) : Type 0 where
  digits : All IsDigit s
  some_digit : 1 ≤ length s
  spells : value s ≡ n

Prints-last :
    (n : ℕ) (front : Text) → Prints (n / 10) front → Prints n (front ++ (b'0' + n % 10) ∷ [])
Prints-last n front p = record {
  digits = All-append IsDigit front _ p.digits (omega arith);
  some_digit = omega (arith, length-append front ((b'0' + n % 10) ∷ []));
  spells = value_from-append 0 front ((b'0' + n % 10) ∷ []) ∙ rw p.spells (omega arith);
}

decimal_digits-Prints : (f n : ℕ) → n < f → Prints n (decimal_digits f n)
unfolding decimal_digits
decimal_digits-Prints zero n h = elim h [ ]
decimal_digits-Prints (suc f) n h = elim (Bool-cases (ltb n 10)) [
  | inl e ↦ rw e (record { digits = ground arith; some_digit = omega arith; spells = ground arith })
  | inr e ↦ rw e (Prints-last n _ (decimal_digits-Prints f (n / 10) (ground arith)))
]

unsigned-value : (s : Text) → All IsDigit s → 1 ≤ length s → unsigned s ≡ some (value s)
unfolding unsigned
unsigned-value [] h l = absurd (omega arith)
unsigned-value (c ∷ s) h l = scan_digits-value 0 (c ∷ s) h

set_string_digits : (s : Text) → All IsDigit s → 1 ≤ length s → set_string s ≡ some (pos (value s))
unfolding set_string
set_string_digits [] h l = absurd (omega arith)
set_string_digits (c ∷ s) h l = ground (arith, unsigned-value (c ∷ s) h l)

-- A printed number is read back as it was: for every integer, also a negative one.
pub set_string-print_int : (z : ℤ) → set_string (print_int z) ≡ some z
unfolding print_int
set_string-print_int (pos n) =
    let p = decimal_digits-Prints (suc n) n (omega arith) in
    set_string_digits _ p.digits p.some_digit ∙ ap (λ m. some (pos m)) p.spells
set_string-print_int (negsuc n) =
    unfold set_string in
    let p = decimal_digits-Prints (suc (suc n)) (suc n) (omega arith) in
    rw (unsigned-value _ p.digits p.some_digit, p.spells) refl
