-- ===== src/Withdraw/Fee.antt =====
-- backend/src/common/withdraw_fee_calculator.py and `_calc_fee` of
-- backend/src/services/withdraw_service.py. Amounts are whole cents, a rate is units / scale.
use gaking.Base.{
  ℕ, ◌*◌, Bool, true, Option, none, some, List, [], ◌∷◌, ◌&&◌, leb, ltb, if◌then◌else◌,
}
use gaking.Base.Money.{div_half_even}

pub record Rate : Type 0 where
  pub units : ℕ
  pub scale : ℕ

-- WithdrawFeeConfig of common/pay_config_util.py
pub record WithdrawFeeConfig : Type 0 where
  pub rate : Rate
  pub min_fee : ℕ

-- the constants WITHDRAW_FEE_RATE and WITHDRAW_FEE_MIN that the configuration falls back to
abbrev pub default_config : WithdrawFeeConfig
default_config = record { rate = record { units = 1; scale = 1000 }; min_fee = 100 }

pub record FeeTier : Type 0 where
  pub min_amount : ℕ
  pub max_amount : Option ℕ
  pub rate : Rate
  pub min_fee : ℕ

pub data TierLabel : Type 0 where
  single : TierLabel
  range : ℕ → Option ℕ → TierLabel

pub data CalcMode : Type 0 where
  by_tier by_single : CalcMode

pub record FeeResult : Type 0 where
  pub fee : ℕ
  pub tier_label : TierLabel
  pub calc_mode : CalcMode

-- `(amount * rate).quantize(Decimal("0.01"))`, raised to the minimum
unfoldable pub fee_at : ℕ → Rate → ℕ → ℕ
fee_at amount rate min_fee =
    let fee = div_half_even (amount * rate.units) rate.scale in
    if ltb fee min_fee then min_fee else fee

unfoldable pub calc_single : ℕ → WithdrawFeeConfig → ℕ
unfolding fee_at
calc_single amount cfg = fee_at amount cfg.rate cfg.min_fee

-- `tier.max_amount is None or amount < tier.max_amount`
unfoldable pub below_max : ℕ → Option ℕ → Bool
below_max amount none = true
below_max amount (some top) = ltb amount top

unfoldable pub in_tier : ℕ → FeeTier → Bool
unfolding below_max
in_tier amount tier = leb tier.min_amount amount && below_max amount tier.max_amount

unfoldable pub tier_result : ℕ → FeeTier → FeeResult
unfolding fee_at
tier_result amount tier = record {
  fee = fee_at amount tier.rate tier.min_fee;
  tier_label = range tier.min_amount tier.max_amount;
  calc_mode = by_tier;
}

unfoldable pub calc_by_tiers : ℕ → List FeeTier → Option FeeResult
unfolding in_tier
calc_by_tiers amount [] = none
calc_by_tiers amount (tier ∷ tiers) =
    if in_tier amount tier then some (tier_result amount tier) else calc_by_tiers amount tiers

or_single : Option FeeResult → ℕ → WithdrawFeeConfig → FeeResult
unfolding calc_single
or_single (some r) amount cfg = r
or_single none amount cfg = record {
  fee = calc_single amount cfg;
  tier_label = single;
  calc_mode = by_single;
}

-- `calculate`, with the tiers that `_load_tiers` returned and the configuration it falls back to
unfoldable pub calculate : ℕ → List FeeTier → WithdrawFeeConfig → FeeResult
unfolding or_single calc_by_tiers
calculate amount tiers cfg = or_single (calc_by_tiers amount tiers) amount cfg

-- A value under a key of a tier's JSON object: no such key, null, no number, or a number.
pub data Field (A : Type 0) : Type 0 where
  absent null malformed : Field A
  given : A → Field A

pub record RawTier : Type 0 where
  pub min_amount : Field ℕ
  pub max_amount : Field ℕ
  pub rate : Field Rate
  pub min_fee : Field ℕ

-- `Decimal(str(item[key]))`: all but a number raises
required : {A : Type 0} → Field A → Option A
required (given a) = some a
required _ = none

-- `Decimal(str(item.get("min_fee", "0")))`
with_zero : Field ℕ → Option ℕ
with_zero absent = some 0
with_zero (given n) = some n
with_zero _ = none

-- `Decimal(str(max_raw)) if max_raw is not None else None`
nullable : Field ℕ → Option (Option ℕ)
nullable absent = some none
nullable null = some none
nullable malformed = none
nullable (given n) = some (some n)

build_tier : Option ℕ → Option Rate → Option ℕ → Option (Option ℕ) → Option FeeTier
build_tier (some low) (some r) (some fee) (some top) =
    some (record { min_amount = low; max_amount = top; rate = r; min_fee = fee })
build_tier _ _ _ _ = none

parse_tier : RawTier → Option FeeTier
unfolding required with_zero nullable build_tier
parse_tier t =
    build_tier (required t.min_amount) (required t.rate) (with_zero t.min_fee)
      (nullable t.max_amount)

-- `tiers.sort(key=lambda t: t.min_amount)`, a stable sort
unfoldable pub insert_tier : FeeTier → List FeeTier → List FeeTier
insert_tier t [] = t ∷ []
insert_tier t (x ∷ xs) = if leb t.min_amount x.min_amount then t ∷ x ∷ xs else x ∷ insert_tier t xs

unfoldable pub keep_tier : Option FeeTier → List FeeTier → List FeeTier
keep_tier none ts = ts
keep_tier (some t) ts = insert_tier t ts

unfoldable pub parse_tiers : List RawTier → List FeeTier
unfolding parse_tier keep_tier insert_tier
parse_tiers [] = []
parse_tiers (t ∷ ts) = keep_tier (parse_tier t) (parse_tiers ts)
