-- ===== src/Domain/Amount/Signs.antt =====
-- What the parser makes of a sign that does not stand in front, and of blank texts.
use native.Mathlib.Nat.{sub-zero}
use evm_tx_sender.Prelude.{
  ℕ, ◌*◌, ◌^◌, Text, pos, true, ok, some, [], ◌∷◌, ◌++◌, ◌≡◌, ◌≢◌, refl, ap, arith, All, false,
  ge→ltb, All-append, replicate, ◌∙◌,
}
use evm_tx_sender.Domain.Amount.{
  is_space, negate, trim_left, trim_space, split_dot, starts_with_minus, or_empty, unsigned,
  combine, parse_amount_to_smallest_unit,
}
use evm_tx_sender.Domain.Amount.Digits.{IsDigit, value, value_from-append, value_from-zeros}
use evm_tx_sender.Domain.Amount.Decimal.{
  digits_are-IsBlack, trim_space-black, split_dot-none, combine-value, scan_digits-value,
  replicate-IsDigit,
}

unsigned-value : (s : Text) → s ≢ [] → All IsDigit s → unsigned s ≡ some (value s)
unfolding unsigned
unsigned-value [] ne h = absurd (ne refl)
unsigned-value (c ∷ s) ne h = scan_digits-value 0 (c ∷ s) h

append_ne_nil : (s t : Text) → s ≢ [] → s ++ t ≢ []
append_ne_nil [] t ne = absurd (ne refl)
append_ne_nil (c ∷ s) t ne = λ e. cc

unsigned_padded :
    (s : Text) (d : ℕ)
    → s ≢ []
    → All IsDigit s
    → unsigned (s ++ replicate d b'0') ≡ some (value s * 10 ^ d)
unsigned_padded s d ne h = rw (
  unsigned-value (s ++ replicate d b'0') (append_ne_nil s _ ne)
      (All-append IsDigit s _ h (replicate-IsDigit d)),
  value_from-append 0 s,
  value_from-zeros,
)

-- The parser from the trimmed text on.
parse_of_trimmed :
    (c : ℕ) (s t : Text) (d : ℕ)
    → trim_space (c ∷ s) ≡ t
    → starts_with_minus t ≡ false
    → parse_amount_to_smallest_unit (c ∷ s) d ≡ combine (split_dot t).0 (or_empty (split_dot t).1) d
unfolding parse_amount_to_smallest_unit
parse_of_trimmed c s t d h m = rw (h, m)

combine_inner_minus :
    (s : Text) (d : ℕ)
    → s ≢ []
    → All IsDigit s
    → combine (b'0' ∷ b'-' ∷ s) [] d ≡ ok (negate (value s * 10 ^ d))
unfolding combine
combine_inner_minus s d ne h = rw (ge→ltb d 0 (omega arith), sub-zero, unsigned_padded s d ne h)

-- A minus behind a zero passes the check for negative amounts: for every non-empty text `s` of
-- digits, the amount `0-s` is accepted and read as minus the value of `s` in smallest units.
pub parse_inner_minus :
    (s : Text) (d : ℕ)
    → s ≢ []
    → All IsDigit s
    → parse_amount_to_smallest_unit (b'0' ∷ b'-' ∷ s) d ≡ ok (negate (value s * 10 ^ d))
parse_inner_minus s d ne h =
    parse_of_trimmed b'0' (b'-' ∷ s) (b'0' ∷ b'-' ∷ s) d
      (trim_space-black (b'0' ∷ b'-' ∷ s) (refl, (refl, digits_are-IsBlack s h))) refl
    ∙ unfold split_dot in rw (split_dot-none s h) (combine_inner_minus s d ne h)

trim_left_blank : (s : Text) → All (λ c. is_space c ≡ true) s → trim_left s ≡ []
unfolding trim_left
trim_left_blank [] h = refl
trim_left_blank (c ∷ s) h = rw (h.0, trim_left_blank s h.1)

trim_space_blank : (s : Text) → All (λ c. is_space c ≡ true) s → trim_space s ≡ []
unfolding trim_space
trim_space_blank s h = rw (trim_left_blank s h)

-- A text of blanks only is not refused as empty: it is read as the amount zero.
pub parse_blank :
    (s : Text) (d : ℕ)
    → s ≢ []
    → All (λ c. is_space c ≡ true) s
    → parse_amount_to_smallest_unit s d ≡ ok (pos 0)
unfolding parse_amount_to_smallest_unit
parse_blank [] d ne h = absurd (ne refl)
parse_blank (c ∷ s) d ne h =
    rw (trim_space_blank (c ∷ s) h, combine-value [] [] d tt tt (omega arith))
      (ap (λ n. ok (pos n)) (omega arith))
