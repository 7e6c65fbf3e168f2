-- ===== src/Withdraw/RulesLaws.antt =====
-- What the rules of backend/src/common/withdraw_rule_validator.py leave as it was.
use gaking.Base.{ℕ, ◌≡◌, inl, inr, arith, Bool-cases, Option-cases}
use gaking.Base.Int.{ℤ}
use gaking.Base.Table.{find}
use gaking.Store.Session.{Session}
use gaking.Accounts.Dao.{get_account_cached}
use gaking.Withdraw.Rules.{RuleEnv, validate_all, check_daily_limit, check_sufficient_balance}

-- The rules read the tables and write the caches alone.
abbrev pub SameTables : Session → Session → Type 0
SameTables s s' = (s'.committed ≡ s.committed) × (s'.working ≡ s.working)

check_daily_limit-tables :
    (u : ℕ) (x : ℤ) (env : RuleEnv) (s : Session) → SameTables s (check_daily_limit u x env s).1
unfolding check_daily_limit
check_daily_limit-tables u x env s = elim (Bool-cases env.daily_readable) [
  | inl readable ↦ elim (Option-cases (find u s.daily_used)) [
    | inl missing ↦ ground (arith, readable)
    | inr (used, found) ↦ ground (arith, readable)
  ]
  | inr unread ↦ ground arith
]

check_sufficient_balance-tables :
    (u : ℕ) (x : ℤ) (env : RuleEnv) (s : Session)
    → SameTables s (check_sufficient_balance u x env s).1
unfolding check_sufficient_balance get_account_cached
check_sufficient_balance-tables u x env s = elim (Bool-cases env.account_readable) [
  | inl readable ↦ ground arith
  | inr unread ↦ ground arith
]

pub validate_all-tables :
    (u : ℕ) (x : ℤ) (env : RuleEnv) (s : Session) → SameTables s (validate_all u x env s).1
unfolding validate_all
validate_all-tables u x env s = ground (
  arith,
  check_daily_limit-tables u x env s,
  check_sufficient_balance-tables u x env (check_daily_limit u x env s).1,
)
