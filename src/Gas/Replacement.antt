-- ===== src/Gas/Replacement.antt =====
-- The fees of a replacement against those of the attempt that it replaces.
use native.Mathlib.Nat.{mul-le-mul_left, mul-le-mul_right}
use evm_tx_sender.Prelude.{
  ℕ, ◌+◌, ◌*◌, ◌/◌, ◌≤◌, ◌<◌, Option, none, some, ◌≡◌, ◌≢◌, refl, ap, true, false, arith, ◌==◌,
}
use evm_tx_sender.Domain.{GasParams}
use evm_tx_sender.Gas.{bump_big_int, bump_percentage, bump_gas}

-- What nodes ask of a replacement: each fee at least a tenth higher. An absent fee stays absent.
abbrev pub Raised : Option ℕ → Option ℕ → Type 0
Raised none new = new ≡ none
Raised (some v) none = ⊥
Raised (some v) (some w) = 11 * v ≤ 10 * w

-- A fee of at least twenty wei, so that rounding down does not eat the raise.
abbrev pub IsSizeable : Option ℕ → Type 0
IsSizeable none = Unit
IsSizeable (some v) = 20 ≤ v

pub bump_percentage_range : (n : ℕ) → 0 < n → (15 ≤ bump_percentage n) × (bump_percentage n ≤ 100)
bump_percentage_range n h = ground arith

raised : (v pct : ℕ) → 20 ≤ v → 15 ≤ pct → 11 * v ≤ 10 * (v + v * pct / 100)
raised v pct h k = omega (arith, mul-le-mul_left v k)

at_most_doubled : (v pct : ℕ) → pct ≤ 100 → v + v * pct / 100 ≤ 2 * v
at_most_doubled v pct h = omega (arith, mul-le-mul_left v h)

bump_big_int-Raised :
    (v : Option ℕ) (n : ℕ) → 0 < n → IsSizeable v → Raised v (bump_big_int v (bump_percentage n))
bump_big_int-Raised none n h k = refl
bump_big_int-Raised (some v) n h k = raised v (bump_percentage n) k (bump_percentage_range n h).0

-- Never more than doubled.
abbrev pub AtMostDoubled : Option ℕ → Option ℕ → Type 0
AtMostDoubled none new = new ≡ none
AtMostDoubled (some v) none = ⊥
AtMostDoubled (some v) (some w) = (v ≤ w) × (w ≤ 2 * v)

bump_big_int-AtMostDoubled :
    (v : Option ℕ) (n : ℕ) → 0 < n → AtMostDoubled v (bump_big_int v (bump_percentage n))
bump_big_int-AtMostDoubled none n h = refl
bump_big_int-AtMostDoubled (some v) n h =
    (omega arith, at_most_doubled v (bump_percentage n) (bump_percentage_range n h).1)

-- Replacing an EIP-1559 attempt: on every bump from the first on, both fees rise by at least a
-- tenth where they are at least twenty wei, and at most double; nothing else changes.
pub bump_gas_dynamic :
    (p : GasParams) (n : ℕ)
    → p.tx_type ≡ 2
    → 0 < n
    → IsSizeable p.max_fee_per_gas
    → IsSizeable p.max_priority_fee_per_gas
    → let q = bump_gas p n in
      Raised p.max_fee_per_gas q.max_fee_per_gas
      × Raised p.max_priority_fee_per_gas q.max_priority_fee_per_gas
      × AtMostDoubled p.max_fee_per_gas q.max_fee_per_gas
      × AtMostDoubled p.max_priority_fee_per_gas q.max_priority_fee_per_gas
      × (q.gas_price ≡ p.gas_price)
      × (q.gas_limit ≡ p.gas_limit)
      × (q.tx_type ≡ 2)
unfolding bump_gas
bump_gas_dynamic p n dynamic h fee tip =
    let test : (p.tx_type == 2) ≡ true = ground arith in
    simp test (
      bump_big_int-Raised p.max_fee_per_gas n h fee,
      bump_big_int-Raised p.max_priority_fee_per_gas n h tip,
      bump_big_int-AtMostDoubled p.max_fee_per_gas n h,
      bump_big_int-AtMostDoubled p.max_priority_fee_per_gas n h,
      refl,
      refl,
      dynamic,
    )

-- Replacing a legacy attempt: its gas price rises by at least a tenth where it is at least twenty
-- wei, and at most doubles; nothing else changes.
pub bump_gas_legacy :
    (p : GasParams) (n : ℕ)
    → p.tx_type ≢ 2
    → 0 < n
    → IsSizeable p.gas_price
    → let q = bump_gas p n in
      Raised p.gas_price q.gas_price
      × AtMostDoubled p.gas_price q.gas_price
      × (q.max_fee_per_gas ≡ p.max_fee_per_gas)
      × (q.max_priority_fee_per_gas ≡ p.max_priority_fee_per_gas)
      × (q.gas_limit ≡ p.gas_limit)
      × (q.tx_type ≡ p.tx_type)
unfolding bump_gas
bump_gas_legacy p n legacy h price =
    let test : (p.tx_type == 2) ≡ false = ground arith in
    simp test (
      bump_big_int-Raised p.gas_price n h price,
      bump_big_int-AtMostDoubled p.gas_price n h,
      refl,
      refl,
      refl,
      refl,
    )

-- A bump never breaks the order that the chain demands: the fee cap still covers the tip.
pub bump_gas-covers :
    (p : GasParams) (n fee tip : ℕ)
    → p.tx_type ≡ 2
    → p.max_fee_per_gas ≡ some fee
    → p.max_priority_fee_per_gas ≡ some tip
    → tip ≤ fee
    → let q = bump_gas p n in
      (fee' : ℕ) × (tip' : ℕ) × (q.max_fee_per_gas ≡ some fee')
      × (q.max_priority_fee_per_gas ≡ some tip')
      × (tip' ≤ fee')
unfolding bump_gas
bump_gas-covers p n fee tip dynamic f t h =
    let test : (p.tx_type == 2) ≡ true = ground arith in
    let pct = bump_percentage n in
    simp test (
      fee + fee * pct / 100,
      tip + tip * pct / 100,
      ap (λ v. bump_big_int v pct) f,
      ap (λ v. bump_big_int v pct) t,
      omega (arith, mul-le-mul_right pct h),
    )

-- The raise is rounded down, so the first bump leaves every fee below seven wei as it is.
pub first_bump_of_small : (v : ℕ) → v < 7 → bump_big_int (some v) (bump_percentage 1) ≡ some v
first_bump_of_small v h = ground arith
