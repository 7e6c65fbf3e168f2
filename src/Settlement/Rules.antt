-- ===== src/Settlement/Rules.antt =====
-- backend/src/services/commission_rule_engine.py, and `_resolve_split` of
-- backend/src/services/commission_settlement_service.py. The loader of configurations with the JSON
-- parser behind it, and the membership of a user, are parameters.
use gaking.Base.{ℕ, suc, Bool, Option, none, some, if◌then◌else◌, ◌||◌}
use gaking.Base.Int.{ℤ, pos, negsuc, ◌-ℤ◌, ◌+ℤ◌, ◌*ℤ◌, ltb_ℤ}
use gaking.Base.Money.{div_half_up}
use gaking.Store.Types.{Order}
use gaking.Store.Session.{Error, Result, ok, err}
use Prim.Native.String.{String, ◌++◌}

pub data UserType : Type 0 where
  normal vip : UserType

-- CommissionSplit: the rates are `user_units / scale` and `platform_units / scale`.
pub record CommissionSplit : Type 0 where
  pub user_units : ℤ
  pub platform_units : ℤ
  pub scale : ℕ

-- the amounts of CommissionResult, in cents
pub record CommissionResult : Type 0 where
  pub total_commission : ℤ
  pub user_commission : ℤ
  pub platform_commission : ℤ

-- DEFAULT_USER_COMMISSION_RATE and DEFAULT_PLATFORM_COMMISSION_RATE
abbrev pub default_split : CommissionSplit
default_split = record { user_units = pos 80; platform_units = pos 20; scale = 100 }

-- `quantize` with ROUND_HALF_UP: a tie goes away from zero.
unfoldable pub round_half_up : ℤ → ℕ → ℤ
round_half_up (pos n) scale = pos (div_half_up n scale)
round_half_up (negsuc n) scale = pos 0 -ℤ pos (div_half_up (suc n) scale)

unfoldable pub calculate : ℤ → CommissionSplit → CommissionResult
unfolding round_half_up
calculate total split =
    let user = round_half_up (total *ℤ split.user_units) split.scale in
    record { total_commission = total; user_commission = user; platform_commission = total -ℤ user }

-- `abs(total - 1) > RATE_SUM_TOLERANCE`, which is 1 / 10000
unfoldable pub sum_is_off : CommissionSplit → Bool
sum_is_off split =
    let excess = split.user_units +ℤ split.platform_units -ℤ pos split.scale in
    ltb_ℤ (pos split.scale) (excess *ℤ pos 10000)
    || ltb_ℤ (excess *ℤ pos 10000) (pos 0 -ℤ pos split.scale)

-- `_validate_sum`
unfoldable pub validate_sum : CommissionSplit → Result CommissionSplit
unfolding sum_is_off
validate_sum split = if sum_is_off split then err Error.rate_sum else ok split

-- A configuration that is there is used, or raises; else the next one is asked.
first_of : Option CommissionSplit → Result CommissionSplit → Result CommissionSplit
unfolding validate_sum
first_of none later = later
first_of (some split) later = validate_sum split

module _ (load_rates : String → UserType → Option CommissionSplit) where
  unfoldable pub get_rates : String → UserType → Result CommissionSplit
  unfolding first_of
  get_rates channel_code user_type =
      first_of (load_rates ("commission_rule:channel:" ++ channel_code) user_type)
        (first_of (load_rates "commission_rule:default" user_type) (ok default_split))

  -- What a membership record holds: the rate of the plan, in units of a scale.
  module _ (member_rate : ℕ → Option (ℤ × ℕ)) (user_type_of : ℕ → UserType) where
    split_for : Option (ℤ × ℕ) → Order → Result CommissionSplit
    unfolding get_rates
    split_for (some (units, scale)) o =
        ok (record { user_units = units; platform_units = pos scale -ℤ units; scale = scale })
    split_for none o = get_rates o.channel_code (user_type_of o.user_id)

    -- `_resolve_split`
    unfoldable pub resolve_split : Order → Result CommissionSplit
    unfolding split_for
    resolve_split o = split_for (member_rate o.user_id) o
