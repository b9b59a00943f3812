-- ===== src/Domain/Amount/Decimal.antt =====
-- A decimal numeral, with or without a fraction, is read as its exact value.
use evm_tx_sender.Prelude.{
  ℕ, zero, suc, ◌+◌, ◌-◌, ◌*◌, ◌^◌, ◌≤◌, ◌<◌, Text, pos, false, Bool-cases, none, some, ok, err, [],
  ◌∷◌, ◌++◌, ◌≡◌, ◌≢◌, refl, ap, inl, inr, arith, All, All-append, length, replicate, is_empty, ◌∙◌,
  lt→ltb, ge→ltb, ◌==◌, ==_iff,
}
use evm_tx_sender.Domain.Amount.{
  is_space, trim_left, trim_right, trim_space, starts_with_minus, split_dot, strip_zeros,
  scan_digits, set_string, or_zero, combine, too_many_decimals, parse_amount_to_smallest_unit,
}
use evm_tx_sender.Domain.Amount.Digits.{
  IsDigit, value, value_from, value_from-append, value_from-zeros, value_from-shift, pow_add,
}

abbrev pub IsBlack : ℕ → Type 0
IsBlack c = is_space c ≡ false

digit-IsBlack : (c : ℕ) → IsDigit c → IsBlack c
digit-IsBlack c h = ground arith

trim_left-black : (c : ℕ) (s : Text) → IsBlack c → trim_left (c ∷ s) ≡ c ∷ s
unfolding trim_left
trim_left-black c s h = rw h

trim_right-black : (s : Text) → All IsBlack s → trim_right s ≡ s
unfolding trim_right
trim_right-black [] h = refl
trim_right-black (c ∷ s) h = rw (h.0, trim_right-black s h.1)

pub trim_space-black : (s : Text) → All IsBlack s → trim_space s ≡ s
unfolding trim_space
trim_space-black [] h = refl
trim_space-black (c ∷ s) h = rw (trim_left-black c s h.0) (trim_right-black (c ∷ s) h)

pub digits_are-IsBlack : (s : Text) → All IsDigit s → All IsBlack s
digits_are-IsBlack [] h = tt
digits_are-IsBlack (c ∷ s) h = (digit-IsBlack c h.0, digits_are-IsBlack s h.1)

pub split_dot-append : (s t : Text) → All IsDigit s → split_dot (s ++ b'.' ∷ t) ≡ (s, some t)
unfolding split_dot
split_dot-append [] t h = refl
split_dot-append (c ∷ s) t h = ground (arith, split_dot-append s t h.1)

pub split_dot-none : (s : Text) → All IsDigit s → split_dot s ≡ (s, none)
unfolding split_dot
split_dot-none [] h = refl
split_dot-none (c ∷ s) h = ground (arith, split_dot-none s h.1)

pub scan_digits-value : (n : ℕ) (s : Text) → All IsDigit s → scan_digits n s ≡ some (value_from n s)
unfolding scan_digits
scan_digits-value n [] h = refl
scan_digits-value n (c ∷ s) h = ground (arith, scan_digits-value (n * 10 + (c - b'0')) s h.1)

set_string-value :
    (c : ℕ) (s : Text) → All IsDigit (c ∷ s) → set_string (c ∷ s) ≡ some (pos (value (c ∷ s)))
unfolding set_string
set_string-value c s h = ground (arith, scan_digits-value 0 (c ∷ s) h)

strip_zeros-IsDigit : (s : Text) → All IsDigit s → All IsDigit (strip_zeros s)
unfolding strip_zeros
strip_zeros-IsDigit [] h = tt
strip_zeros-IsDigit (c ∷ s) h = elim (Bool-cases (c == b'0')) [
  | inl e ↦ rw e (strip_zeros-IsDigit s h.1)
  | inr e ↦ rw e h
]

value-strip_zeros : (s : Text) → value (strip_zeros s) ≡ value s
unfolding strip_zeros
value-strip_zeros [] = refl
value-strip_zeros (c ∷ s) = elim (Bool-cases (c == b'0')) [
  | inl e ↦ rw (e, value-strip_zeros s, (==_iff c b'0').0 e)
  | inr e ↦ rw e
]

set_string-strip_zeros :
    (s : Text) → All IsDigit s → set_string (or_zero (strip_zeros s)) ≡ some (pos (value s))
set_string-strip_zeros s h = go (strip_zeros s) (strip_zeros-IsDigit s h) (value-strip_zeros s)
  where
    go :
        (t : Text)
        → All IsDigit t
        → value t ≡ value s
        → set_string (or_zero t) ≡ some (pos (value s))
    go [] d e = rw (set_string-value b'0' [] (omega arith)) (ap (λ n. some (pos n)) e)
    go (c ∷ t) d e = rw (set_string-value c t d) (ap (λ n. some (pos n)) e)

pub replicate-IsDigit : (k : ℕ) → All IsDigit (replicate k b'0')
replicate-IsDigit zero = tt
replicate-IsDigit (suc k) = (omega arith, replicate-IsDigit k)

or_zero-IsDigit : (s : Text) → All IsDigit s → All IsDigit (or_zero s)
or_zero-IsDigit [] h = omega arith
or_zero-IsDigit (c ∷ s) h = h

value-or_zero : (s : Text) → value (or_zero s) ≡ value s
value-or_zero [] = refl
value-or_zero (c ∷ s) = refl

-- The fraction is filled up to `d` digits, and both parts are read as one number.
value_padded :
    (s t : Text) (d : ℕ)
    → length t ≤ d
    → value (s ++ (t ++ replicate (d - length t) b'0'))
      ≡ value s * 10 ^ d + value t * 10 ^ (d - length t)
value_padded s t d h =
    rw
      (
        value_from-append 0 s,
        value_from-append (value s) t,
        value_from-zeros,
        value_from-shift (value s) t,
      )
      (rw split (omega arith))
  where
    split : 10 ^ d ≡ 10 ^ length t * 10 ^ (d - length t)
    split = rw (← pow_add) (ap (λ n. 10 ^ n) (omega arith))

pub combine-value :
    (s t : Text) (d : ℕ)
    → All IsDigit s
    → All IsDigit t
    → length t ≤ d
    → combine s t d ≡ ok (pos (value s * 10 ^ d + value t * 10 ^ (d - length t)))
unfolding combine
combine-value s t d hs ht h = rw (
  ge→ltb d (length t) h,
  set_string-strip_zeros padded digits,
  value_padded (or_zero s) t d h,
  value-or_zero s,
)
  where
    padded : Text
    padded = or_zero s ++ (t ++ replicate (d - length t) b'0')

    digits : All IsDigit padded
    digits =
        All-append IsDigit (or_zero s) _ (or_zero-IsDigit s hs)
          (All-append IsDigit t _ ht (replicate-IsDigit (d - length t)))

dotted-IsBlack : (s t : Text) → All IsDigit s → All IsDigit t → All IsBlack (s ++ b'.' ∷ t)
dotted-IsBlack s t hs ht =
    All-append IsBlack s (b'.' ∷ t) (digits_are-IsBlack s hs) (refl, digits_are-IsBlack t ht)

starts_with_minus_dotted : (s t : Text) → All IsDigit s → starts_with_minus (s ++ b'.' ∷ t) ≡ false
starts_with_minus_dotted [] t h = refl
starts_with_minus_dotted (c ∷ s) t h = ground arith

is_empty_dotted : (s t : Text) → is_empty (s ++ b'.' ∷ t) ≡ false
is_empty_dotted [] t = refl
is_empty_dotted (c ∷ s) t = refl

-- A numeral with a dot reaches `combine` as its two parts.
pub parse-combine :
    (s t : Text) (d : ℕ)
    → All IsDigit s
    → All IsDigit t
    → parse_amount_to_smallest_unit (s ++ b'.' ∷ t) d ≡ combine s t d
unfolding parse_amount_to_smallest_unit
parse-combine s t d hs ht = rw (
  is_empty_dotted s t,
  trim_space-black (s ++ b'.' ∷ t) (dotted-IsBlack s t hs ht),
  starts_with_minus_dotted s t hs,
  split_dot-append s t hs,
)

-- A decimal amount, written with digits and one dot and at most `d` digits behind the dot, is
-- accepted, and read as exactly its value times ten to the power of the token's decimals: no
-- digit is lost or rounded.
pub parse_decimal :
    (s t : Text) (d : ℕ)
    → All IsDigit s
    → All IsDigit t
    → length t ≤ d
    → parse_amount_to_smallest_unit (s ++ b'.' ∷ t) d
      ≡ ok (pos (value s * 10 ^ d + value t * 10 ^ (d - length t)))
parse_decimal s t d hs ht h = parse-combine s t d hs ht ∙ combine-value s t d hs ht h

-- A whole amount, written as one or more digits, is accepted and read as its value times ten to
-- the power of the token's decimals.
pub parse_whole :
    (s : Text) (d : ℕ)
    → All IsDigit s
    → s ≢ []
    → parse_amount_to_smallest_unit s d ≡ ok (pos (value s * 10 ^ d))
unfolding parse_amount_to_smallest_unit
parse_whole [] d h ne = absurd (ne refl)
parse_whole (c ∷ s) d h ne =
    rw
      (
        trim_space-black (c ∷ s) (digits_are-IsBlack (c ∷ s) h),
        not_minus,
        split_dot-none (c ∷ s) h,
        combine-value (c ∷ s) [] d h tt (omega arith),
      )
      (ap (λ n. ok (pos n)) (omega arith))
  where
    not_minus : (c == b'-') ≡ false
    not_minus = ground arith

-- An amount with more digits behind the dot than the token has decimals is refused, and the error
-- names both numbers.
pub parse_too_long :
    (s t : Text) (d : ℕ)
    → All IsDigit s
    → All IsDigit t
    → d < length t
    → parse_amount_to_smallest_unit (s ++ b'.' ∷ t) d ≡ err (too_many_decimals (length t) d)
unfolding combine
parse_too_long s t d hs ht h = rw (parse-combine s t d hs ht, lt→ltb d (length t) h)
