-- ===== src/Domain/Amount/Digits.antt =====
-- The value of a run of decimal digits.
use native.Mathlib.Nat.{pow-zero, pow-suc, mul_assoc, mul-one, add-zero, add-suc}
use evm_tx_sender.Prelude.{
  ℕ, zero, suc, ◌+◌, ◌-◌, ◌*◌, ◌^◌, ◌≤◌, Text, [], ◌∷◌, ◌++◌, ◌≡◌, refl, arith, length, replicate,
}

abbrev pub IsDigit : ℕ → Type 0
IsDigit c = (b'0' ≤ c) × (c ≤ b'9')

abbrev pub value_from : ℕ → Text → ℕ
value_from n [] = n
value_from n (c ∷ s) = value_from (n * 10 + (c - b'0')) s

-- The number that a text of digits spells.
abbrev pub value : Text → ℕ
value s = value_from 0 s

pub value_from-append : (n : ℕ) (s t : Text) → value_from n (s ++ t) ≡ value_from (value_from n s) t
value_from-append n [] t = refl
value_from-append n (c ∷ s) t = value_from-append (n * 10 + (c - b'0')) s t

pub pow_add : (b m n : ℕ) → b ^ (m + n) ≡ b ^ m * b ^ n
pow_add b m zero = simp (add-zero, pow-zero, mul-one)
pow_add b m (suc n) = simp (add-suc, pow-suc, pow_add b m n, mul_assoc)

pub value_from-zeros : (n k : ℕ) → value_from n (replicate k b'0') ≡ n * 10 ^ k
value_from-zeros n zero = simp (pow-zero, mul-one)
value_from-zeros n (suc k) = rw (value_from-zeros (n * 10 + 0) k, pow-suc) (omega arith)

-- The digits before count for ten to the number of the digits behind.
pub value_from-shift : (n : ℕ) (s : Text) → value_from n s ≡ n * 10 ^ length s + value s
value_from-shift n [] = simp (pow-zero, mul-one, add-zero)
value_from-shift n (c ∷ s) =
    rw (value_from-shift (n * 10 + (c - b'0')) s, value_from-shift (0 * 10 + (c - b'0')) s, pow-suc)
      (omega arith)
