-- ===== src/Gas/Bounds.antt =====
-- The fees of an estimate lie within the bounds that the chain's configuration sets.
use evm_tx_sender.Prelude.{
  ℕ, ◌+◌, ◌*◌, ◌/◌, ◌≤◌, Text, true, Option, none, some, Result, ok, err, ◌≡◌, refl, sym, ap, ◌∙◌,
  ◌⊎◌, Bool, false, if◌then◌else◌, Result-cases, Ensures, Ensures-ok, inl, inr, arith,
}
use evm_tx_sender.Domain.{Priority, ChainConfig, GasParams}
use evm_tx_sender.Gas.{
  GasReplies, priority_multipliers, clamp, cover, dynamic_params, estimate_legacy, estimate_eip1559,
  or_else, estimate_from, tip_or_default, estimate,
}

-- `none` is no bound.
abbrev pub AtLeast : Option ℕ → ℕ → Type 0
AtLeast none v = Unit
AtLeast (some m) v = m ≤ v

abbrev pub AtMost : Option ℕ → ℕ → Type 0
AtMost none v = Unit
AtMost (some m) v = v ≤ m

-- A lower bound does not pass an upper one.
abbrev pub Ordered : Option ℕ → Option ℕ → Type 0
Ordered none hi = Unit
Ordered (some lo) hi = AtMost hi lo

pub clamp-AtLeast : (v : ℕ) (lo hi : Option ℕ) → Ordered lo hi → AtLeast lo (clamp v lo hi)
unfolding clamp
clamp-AtLeast v none none h = tt
clamp-AtLeast v none (some m) h = tt
clamp-AtLeast v (some l) none h = ground arith
clamp-AtLeast v (some l) (some m) h = ground arith

pub clamp-AtMost : (v : ℕ) (lo hi : Option ℕ) → Ordered lo hi → AtMost hi (clamp v lo hi)
unfolding clamp
clamp-AtMost v none none h = tt
clamp-AtMost v none (some m) h = ground arith
clamp-AtMost v (some l) none h = tt
clamp-AtMost v (some l) (some m) h = ground arith

cover-AtLeast : (fee tip : ℕ) (lo : Option ℕ) → AtLeast lo fee → AtLeast lo (cover fee tip)
unfolding cover
cover-AtLeast fee tip none h = tt
cover-AtLeast fee tip (some l) h = ground arith

cover-AtMost :
    (fee tip : ℕ) (hi : Option ℕ)
    → AtMost hi fee
    → AtMost hi (cover fee tip) ⊎ (cover fee tip ≡ tip)
unfolding cover
cover-AtMost fee tip none h = inl tt
cover-AtMost fee tip (some m) h = ground arith

tip-le-cover : (fee tip : ℕ) → tip ≤ cover fee tip
unfolding cover
tip-le-cover fee tip = ground arith

pub record FitsDynamic (chain : ChainConfig) (p : GasParams) : Type 0 where
  pub fee : ℕ
  pub tip : ℕ
  pub is_dynamic : p.tx_type ≡ 2
  pub fee_eq : p.max_fee_per_gas ≡ some fee
  pub tip_eq : p.max_priority_fee_per_gas ≡ some tip
  pub no_price : p.gas_price ≡ none
  pub covered : tip ≤ fee
  pub tip_at_least : AtLeast chain.min_priority_fee tip
  pub tip_at_most : AtMost chain.max_priority_fee tip
  pub fee_at_least : AtLeast chain.min_max_fee fee
  pub fee_at_most : AtMost chain.max_max_fee fee ⊎ (fee ≡ tip)

pub record FitsLegacy (chain : ChainConfig) (p : GasParams) : Type 0 where
  pub price : ℕ
  pub is_legacy : p.tx_type ≡ 0
  pub price_eq : p.gas_price ≡ some price
  pub no_fee : p.max_fee_per_gas ≡ none
  pub no_tip : p.max_priority_fee_per_gas ≡ none
  pub price_at_least : AtLeast chain.min_max_fee price
  pub price_at_most : AtMost chain.max_max_fee price

-- The bounds of the configuration can be met.
pub record IsOrdered (chain : ChainConfig) : Type 0 where
  pub priority_ordered : Ordered chain.min_priority_fee chain.max_priority_fee
  pub max_fee_ordered : Ordered chain.min_max_fee chain.max_max_fee

dynamic_params_fit :
    (chain : ChainConfig) (priority : Priority) (gas_limit base_fee tip : ℕ)
    → IsOrdered chain
    → FitsDynamic chain (dynamic_params chain priority gas_limit base_fee tip)
unfolding dynamic_params
dynamic_params_fit chain priority gas_limit base_fee suggested h =
    let mult = priority_multipliers priority in
    let raw_tip = suggested * mult.tip_multiplier / 100 in
    let raw_fee = base_fee * mult.fee_multiplier / 100 + raw_tip in
    let tip = clamp raw_tip chain.min_priority_fee chain.max_priority_fee in
    let fee = clamp raw_fee chain.min_max_fee chain.max_max_fee in
    record {
      fee = cover fee tip;
      tip = tip;
      is_dynamic = refl;
      fee_eq = refl;
      tip_eq = refl;
      no_price = refl;
      covered = tip-le-cover fee tip;
      tip_at_least = clamp-AtLeast raw_tip _ _ h.priority_ordered;
      tip_at_most = clamp-AtMost raw_tip _ _ h.priority_ordered;
      fee_at_least = cover-AtLeast fee tip _ (clamp-AtLeast raw_fee _ _ h.max_fee_ordered);
      fee_at_most = cover-AtMost fee tip _ (clamp-AtMost raw_fee _ _ h.max_fee_ordered);
    }

legacy_fits :
    (chain : ChainConfig) (gas_limit : ℕ) (price : Result Text ℕ)
    → IsOrdered chain
    → Ensures
        (λ p. FitsLegacy chain p × (p.gas_limit ≡ gas_limit))
        (estimate_legacy chain gas_limit price)
unfolding estimate_legacy
legacy_fits chain gas_limit (err e) h = tt
legacy_fits chain gas_limit (ok v) h = (
  record {
    price = clamp v chain.min_max_fee chain.max_max_fee;
    is_legacy = refl;
    price_eq = refl;
    no_fee = refl;
    no_tip = refl;
    price_at_least = clamp-AtLeast v _ _ h.max_fee_ordered;
    price_at_most = clamp-AtMost v _ _ h.max_fee_ordered;
  },
  refl,
)

-- What an estimate returns.
abbrev pub FitsBounds : ChainConfig → GasParams → Type 0
FitsBounds chain p = FitsDynamic chain p ⊎ FitsLegacy chain p

abbrev Fits : ChainConfig → ℕ → GasParams → Type 0
Fits chain gas_limit p = FitsBounds chain p × (p.gas_limit ≡ gas_limit)

weaken :
    (chain : ChainConfig) (gas_limit : ℕ) (r : Result Text GasParams)
    → Ensures (λ p. FitsLegacy chain p × (p.gas_limit ≡ gas_limit)) r
    → Ensures (Fits chain gas_limit) r
weaken chain gas_limit (ok p) h = (inr h.0, h.1)
weaken chain gas_limit (err e) h = tt

dynamic_or_legacy-Fits :
    (chain : ChainConfig) (priority : Priority) (gas_limit : ℕ) (base_fee tip price : Result Text ℕ)
    → IsOrdered chain
    → Ensures (Fits chain gas_limit) (
        or_else
          (estimate_eip1559 chain priority gas_limit base_fee tip)
          (estimate_legacy chain gas_limit price))
unfolding estimate_eip1559
dynamic_or_legacy-Fits chain priority gas_limit (err e) tip price h =
    weaken chain gas_limit _ (legacy_fits chain gas_limit price h)
dynamic_or_legacy-Fits chain priority gas_limit (ok v) tip price h = (
  inl (dynamic_params_fit chain priority gas_limit v (tip_or_default tip) h),
  unfold dynamic_params in refl,
)

estimate_from-Fits :
    (replies : GasReplies) (chain : ChainConfig) (priority : Priority) (units : ℕ)
    → IsOrdered chain
    → Ensures
        (Fits chain (chain.scale_gas_limit units))
        (estimate_from replies chain priority (ok units))
unfolding estimate_from
estimate_from-Fits replies chain priority units h = go chain.supports_eip1559
  where
    legacy : Result Text GasParams
    legacy = estimate_legacy chain (chain.scale_gas_limit units) replies.suggest_gas_price

    dynamic : Result Text GasParams
    dynamic =
        estimate_eip1559 chain priority (chain.scale_gas_limit units) replies.latest_base_fee
          replies.suggest_gas_tip_cap

    go :
        (b : Bool)
        → Ensures
            (Fits chain (chain.scale_gas_limit units))
            (if b then or_else dynamic legacy else legacy)
    go true = dynamic_or_legacy-Fits chain priority _ _ _ _ h
    go false = weaken chain _ _ (legacy_fits chain _ replies.suggest_gas_price h)

-- Every successful estimate has the shape of its type and respects the configured bounds, where
-- these are consistent: an EIP-1559 estimate has a tip within the tip's bounds, a fee cap that
-- covers the tip and is within the cap's bounds, unless the tip alone lifts it above the maximum;
-- a legacy estimate has a gas price within the cap's bounds. The gas limit is the node's figure
-- times the configured multiplier.
pub estimate_fits :
    (replies : GasReplies) (chain : ChainConfig) (priority : Priority) (p : GasParams)
    → IsOrdered chain
    → estimate replies chain priority ≡ ok p
    → FitsBounds chain p
      × ((units : ℕ) × (replies.estimate_gas ≡ ok units)
          × (p.gas_limit ≡ chain.scale_gas_limit units))
unfolding estimate
estimate_fits replies chain priority p h e = elim (Result-cases replies.estimate_gas) [
  | inl (units, known) ↦
      let (fits, limit) =
        Ensures-ok (Fits chain (chain.scale_gas_limit units)) _
          (estimate_from-Fits replies chain priority units h)
          (ap (estimate_from replies chain priority) (sym known) ∙ e) in
      (fits, (units, known, limit))
  | inr (x, failed) ↦ absurd (cc (ap (estimate_from replies chain priority) failed))
]
