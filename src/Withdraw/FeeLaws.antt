-- ===== src/Withdraw/FeeLaws.antt =====
-- What backend/src/common/withdraw_fee_calculator.py charges.
use gaking.Base.{
  ℕ, ◌≡◌, ◌≢◌, inl, inr, true, Option, none, some, List, [], ◌∷◌, arith, ◌+◌, ◌*◌, ◌≤◌, ◌<◌,
  Bool-cases, Option-cases,
}
use gaking.Base.Money.{div_half_even}
use gaking.Withdraw.Fee.{
  Rate, WithdrawFeeConfig, default_config, FeeTier, FeeResult, fee_at, calc_single, in_tier,
  tier_result, calc_by_tiers, calculate, RawTier, insert_tier, keep_tier, parse_tiers,
}
use Prim.Native.Nat.{max}
use native.Mathlib.Nat.{div-add-mod, mod-lt}

-- Rounding to the nearest: twice the error is at most the scale.
pub div_half_even_near :
    (n d : ℕ)
    → 0 < d
    → (2 * (d * div_half_even n d) ≤ 2 * n + d) × (2 * n ≤ 2 * (d * div_half_even n d) + d)
unfolding div_half_even
div_half_even_near n d h = grind (arith, div-add-mod n d, mod-lt n {m = d} h)

-- Under the default configuration the fee of ten yuan or more is at least one yuan and no more than
-- the amount.
pub calc_single_default :
    (amount : ℕ)
    → 1000 ≤ amount
    → (100 ≤ calc_single amount default_config) × (calc_single amount default_config ≤ amount)
unfolding calc_single div_half_even
calc_single_default amount h = ground arith

-- A fee is the rate's share of the amount to the nearest cent, or the minimum where that is more.
pub fee_at-eq-max :
    (amount : ℕ) (r : Rate) (min_fee : ℕ)
    → fee_at amount r min_fee ≡ max (div_half_even (amount * r.units) r.scale) min_fee
unfolding fee_at
fee_at-eq-max amount r min_fee = ground arith

abbrev pub IsSorted : List FeeTier → Type 0
IsSorted [] = Unit
IsSorted (t ∷ []) = Unit
IsSorted (t ∷ x ∷ ts) = (t.min_amount ≤ x.min_amount) × IsSorted (x ∷ ts)

insert_tier-IsSorted : (t : FeeTier) (ts : List FeeTier) → IsSorted ts → IsSorted (insert_tier t ts)
unfolding insert_tier
insert_tier-IsSorted t [] h = tt
insert_tier-IsSorted t (x ∷ []) h = ground arith
insert_tier-IsSorted t (x ∷ y ∷ ts) h = ground (arith, insert_tier-IsSorted t (y ∷ ts) h.1)

keep_tier-IsSorted :
    (o : Option FeeTier) (ts : List FeeTier) → IsSorted ts → IsSorted (keep_tier o ts)
unfolding keep_tier
keep_tier-IsSorted none ts h = h
keep_tier-IsSorted (some t) ts h = insert_tier-IsSorted t ts h

-- The tiers read from a configuration are in ascending order of their lower bounds.
pub parse_tiers-IsSorted : (raw : List RawTier) → IsSorted (parse_tiers raw)
unfolding parse_tiers
parse_tiers-IsSorted [] = tt
parse_tiers-IsSorted (t ∷ ts) = keep_tier-IsSorted _ (parse_tiers ts) (parse_tiers-IsSorted ts)

-- Tiers that follow one another without a gap: each ends where the next begins, the last has no end.
abbrev pub IsContiguous : List FeeTier → Type 0
IsContiguous [] = ⊥
IsContiguous (t ∷ []) = t.max_amount ≡ none
IsContiguous (t ∷ x ∷ ts) = (t.max_amount ≡ some x.min_amount) × IsContiguous (x ∷ ts)

-- A table of contiguous tiers leaves no amount from its first bound on to the single rate.
pub contiguous_covers :
    (amount : ℕ) (t : FeeTier) (ts : List FeeTier)
    → IsContiguous (t ∷ ts)
    → t.min_amount ≤ amount
    → calc_by_tiers amount (t ∷ ts) ≢ none
unfolding calc_by_tiers
contiguous_covers amount t [] c h = ground arith
contiguous_covers amount t (x ∷ ts) c h = ground (arith, contiguous_covers amount x ts c.1)

calc_by_tiers_sound :
    (amount : ℕ) (ts : List FeeTier) {r : FeeResult}
    → calc_by_tiers amount ts ≡ some r
    → (t : FeeTier) × (r ≡ tier_result amount t) × (in_tier amount t ≡ true)
unfolding calc_by_tiers
calc_by_tiers_sound amount [] h = cc
calc_by_tiers_sound amount (t ∷ ts) h = elim (Bool-cases (in_tier amount t)) [
  | inl inside ↦ (t, ground arith, inside)
  | inr outside ↦ calc_by_tiers_sound amount ts (rw outside at h)
]

-- A fee charged by a contiguous table is that of a tier whose bounds hold the amount.
pub calculate_contiguous :
    (amount : ℕ) (t : FeeTier) (ts : List FeeTier) (cfg : WithdrawFeeConfig)
    → IsContiguous (t ∷ ts)
    → t.min_amount ≤ amount
    → (x : FeeTier) × (calculate amount (t ∷ ts) cfg ≡ tier_result amount x)
      × (in_tier amount x ≡ true)
unfolding calculate
calculate_contiguous amount t ts cfg c h = elim (Option-cases (calc_by_tiers amount (t ∷ ts))) [
  | inl e ↦ absurd (contiguous_covers amount t ts c h e)
  | inr (r, e) ↦
      let (x, same, inside) = calc_by_tiers_sound amount (t ∷ ts) e in (x, ground arith, inside)
]
