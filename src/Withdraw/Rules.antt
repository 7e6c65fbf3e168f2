-- ===== src/Withdraw/Rules.antt =====
-- backend/src/common/withdraw_rule_validator.py, and `sum_apply_amount_by_user_and_date` of
-- backend/src/dao/user_withdraw_apply_dao.py. Amounts are whole cents.
use gaking.Base.{
  ℕ, Bool, true, false, Option, none, some, List, ◌&&◌, not, leb, ltb, ◌==◌, if◌then◌else◌,
}
use gaking.Base.Int.{ℤ, pos, pos_part, ◌+ℤ◌, ltb_ℤ}
use gaking.Base.Table.{find, put, remove, sum_by}
use gaking.Store.Types.{Account, WithdrawApply, WithdrawStatus}
use gaking.Store.Session.{Error, ok, Action, ◌>>=◌, ◌>>◌, pure, raise_if}
use gaking.Accounts.Dao.{get_account_cached}
use gaking.Withdraw.Fee.{FeeTier, WithdrawFeeConfig, FeeResult, calculate}

-- WITHDRAW_MIN_AMOUNT and WITHDRAW_DAILY_LIMIT
abbrev pub withdraw_min_amount : ℤ
withdraw_min_amount = pos 1000

abbrev pub withdraw_daily_limit : ℤ
withdraw_daily_limit = pos 5000000

-- What a request finds outside the database: the tiers and the rate in force, the bounds of the
-- day, and whether the daily sum and the cached account could be read at all.
pub record RuleEnv : Type 0 where
  pub tiers : List FeeTier
  pub config : WithdrawFeeConfig
  pub day_start : ℕ
  pub day_end : ℕ
  pub daily_readable : Bool
  pub account_readable : Bool

is_rejected : WithdrawStatus → Bool
is_rejected WithdrawStatus.rejected = true
is_rejected _ = false

-- the WHERE clause of the daily sum
unfoldable pub counts_today : ℕ → RuleEnv → WithdrawApply → Bool
unfolding is_rejected
counts_today u env a =
    a.user_id == u
    && leb env.day_start a.create_time
    && ltb a.create_time env.day_end
    && not (is_rejected a.status)

unfoldable pub day_amount : ℕ → RuleEnv → WithdrawApply → ℤ
unfolding counts_today
day_amount u env a = if counts_today u env a then a.apply_amount else pos 0

read_daily : Option ℤ → ℕ → RuleEnv → Action ℤ
unfolding day_amount
read_daily (some used) u env s = (ok used, s)
read_daily none u env s =
    let used = sum_by (day_amount u env) s.working.applies in
    (ok used, record s { daily_used = put u used s.daily_used })

-- `_get_daily_used`: the cached sum, or the sum over the table, which is then cached
unfoldable pub get_daily_used : ℕ → RuleEnv → Action ℤ
unfolding read_daily
get_daily_used u env s = read_daily (find u s.daily_used) u env s

unfoldable pub check_min_amount : ℤ → Action (Unit {0})
check_min_amount amount = raise_if (ltb_ℤ amount withdraw_min_amount) Error.below_minimum

-- A sum that cannot be read skips the check.
unfoldable pub check_daily_limit : ℕ → ℤ → RuleEnv → Action (Unit {0})
unfolding get_daily_used
check_daily_limit u amount env =
    if env.daily_readable
    then (do
      used ← get_daily_used u env
      raise_if (ltb_ℤ withdraw_daily_limit (used +ℤ amount)) Error.over_daily_limit)
    else pure tt

short_of : ℤ → Option Account → Bool
short_of amount none = false
short_of amount (some a) = ltb_ℤ a.available_balance amount

-- An account that cannot be read, or that is not there, is left to `adjust_balance`.
unfoldable pub check_sufficient_balance : ℕ → ℤ → RuleEnv → Action (Unit {0})
unfolding short_of
check_sufficient_balance u amount env =
    if env.account_readable
    then (do account ← get_account_cached u; raise_if (short_of amount account) Error.balance_short)
    else pure tt

-- The fee is computed once the amount is known to be at least the minimum.
unfoldable pub validate_all : ℕ → ℤ → RuleEnv → Action FeeResult
unfolding check_min_amount check_daily_limit check_sufficient_balance
validate_all u amount env = do
  check_min_amount amount
  check_daily_limit u amount env
  check_sufficient_balance u amount env
  pure (calculate (pos_part amount) env.tiers env.config)

-- `invalidate_daily_used_cache`
abbrev pub invalidate_daily_used_cache : ℕ → Action (Unit {0})
invalidate_daily_used_cache u s = (ok tt, record s { daily_used = remove u s.daily_used })
