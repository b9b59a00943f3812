-- ===== src/Domain/Spelling.antt =====
-- The texts of addresses tell them apart, are in lower case, and have one length.
use native.Mathlib.Nat.{pow-zero, pow-suc}
use evm_tx_sender.Prelude.{
  ℕ, zero, suc, ◌+◌, ◌-◌, ◌*◌, ◌/◌, ◌%◌, ◌^◌, ◌<◌, ◌≡◌, refl, sym, ap, ◌∙◌, Text, List, [], ◌∷◌,
  ◌++◌, codes, length, length-append, hex_digit, to_lower, to_lower_byte, leb, if◌then◌else◌, arith,
}
use evm_tx_sender.Domain.Records.{hex_digits, address_text}

pub append_inj :
    {A : Type 0} (s t x y : List A) → length s ≡ length t → s ++ x ≡ t ++ y → (s ≡ t) × (x ≡ y)
append_inj [] [] x y n e = (refl, e)
append_inj [] (b ∷ t) x y n e = absurd (omega arith)
append_inj (a ∷ s) [] x y n e = absurd (omega arith)
append_inj (a ∷ s) (b ∷ t) x y n e =
    let (same, rest) = append_inj s t x y (omega arith) (cc) in (cc, rest)

-- The value of a hexadecimal digit in lower case, and of a text of them behind the value `n`.
abbrev pub digit_value : ℕ → ℕ
digit_value c = if leb b'a' c then c - b'a' + 10 else c - b'0'

abbrev pub hex_value : ℕ → Text → ℕ
hex_value n [] = n
hex_value n (c ∷ s) = hex_value (n * 16 + digit_value c) s

pub digit_value-hex_digit : (n : ℕ) → n < 16 → digit_value (hex_digit n) ≡ n
digit_value-hex_digit n h = ground arith

hex_value-append : (n : ℕ) (s t : Text) → hex_value n (s ++ t) ≡ hex_value (hex_value n s) t
hex_value-append n [] t = refl
hex_value-append n (c ∷ s) t = hex_value-append (n * 16 + digit_value c) s t

hex_value-hex_digits : (k n : ℕ) → n < 16 ^ k → hex_value 0 (hex_digits k n) ≡ n
unfolding hex_digits
hex_value-hex_digits zero n h = let low : n < 1 = rw pow-zero at h in omega arith
hex_value-hex_digits (suc k) n h =
    let below : n < 16 ^ k * 16 = rw pow-suc at h in
    hex_value-append 0 (hex_digits k (n / 16)) (hex_digit (n % 16) ∷ [])
    ∙ rw
        (
          hex_value-hex_digits k (n / 16) (omega arith),
          digit_value-hex_digit (n % 16) (omega arith),
        )
        (omega arith)

-- Two addresses with the same text are the same.
pub address_text_inj :
    (a b : ℕ) → a < 16 ^ 40 → b < 16 ^ 40 → address_text a ≡ address_text b → a ≡ b
unfolding address_text
address_text_inj a b ha hb e =
    let digits : hex_digits 40 a ≡ hex_digits 40 b =
      (append_inj (codes "0x") (codes "0x") (hex_digits 40 a) (hex_digits 40 b) refl e).1 in
    sym (hex_value-hex_digits 40 a ha) ∙ (ap (hex_value 0) digits ∙ hex_value-hex_digits 40 b hb)

length-hex_digits : (k n : ℕ) → length (hex_digits k n) ≡ k
unfolding hex_digits
length-hex_digits zero n = refl
length-hex_digits (suc k) n = omega (
  arith,
  length-append (hex_digits k (n / 16)) (hex_digit (n % 16) ∷ []),
  length-hex_digits k (n / 16),
)

pub length-address_text : (a : ℕ) → length (address_text a) ≡ 42
unfolding address_text
length-address_text a = omega (arith, length-hex_digits 40 a)

to_lower-append : (s t : Text) → to_lower (s ++ t) ≡ to_lower s ++ to_lower t
to_lower-append [] t = refl
to_lower-append (c ∷ s) t = ap (λ r. to_lower_byte c ∷ r) (to_lower-append s t)

to_lower-hex_digit : (n : ℕ) → n < 16 → to_lower_byte (hex_digit n) ≡ hex_digit n
to_lower-hex_digit n h = ground arith

to_lower-hex_digits : (k n : ℕ) → to_lower (hex_digits k n) ≡ hex_digits k n
unfolding hex_digits
to_lower-hex_digits zero n = refl
to_lower-hex_digits (suc k) n =
    to_lower-append (hex_digits k (n / 16)) (hex_digit (n % 16) ∷ [])
    ∙ rw (to_lower-hex_digits k (n / 16), to_lower-hex_digit (n % 16) (omega arith)) refl

pub to_lower-address_text : (a : ℕ) → to_lower (address_text a) ≡ address_text a
unfolding address_text
to_lower-address_text a = ap (λ r. b'0' ∷ b'x' ∷ r) (to_lower-hex_digits 40 a)
