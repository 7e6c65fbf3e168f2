-- ===== src/Accounts/Dao.antt =====
-- backend/src/dao/user_commission_account_dao.py, the methods that change accounts, and the account
-- helper that dao/settlement_atomic_dao.py and dao/commission_settlement_dao.py share.
use gaking.Base.{ℕ, ◌+◌, Bool, true, false, Option, none, some, List, [], ◌∷◌, leb, if◌then◌else◌}
use gaking.Base.Int.{ℤ, pos, ◌+ℤ◌, leb_ℤ, ltb_ℤ}
use gaking.Base.Table.{find, put}
use gaking.Store.Types.{Account}
use gaking.Store.Session.{
  CacheEntry, Error, Result, ok, err, Action, ◌>>=◌, ◌>>◌, pure, gets, or_raise, raise_if, modify,
  commit, invalidate_account_cache,
}

-- The five keyword arguments of `adjust_balance`.
pub record Deltas : Type 0 where
  pub available : ℤ
  pub frozen : ℤ
  pub total : ℤ
  pub withdrawn : ℤ
  pub fee : ℤ

-- Their default values.
abbrev pub no_deltas : Deltas
no_deltas = record {
  available = pos 0;
  frozen = pos 0;
  total = pos 0;
  withdrawn = pos 0;
  fee = pos 0;
}

abbrev pub new_account : ℕ → Account
new_account u = record {
  user_id = u;
  total_balance = pos 0;
  available_balance = pos 0;
  frozen_balance = pos 0;
  cumulative_withdrawn = pos 0;
  cumulative_fee = pos 0;
  last_settle_date = none;
  version = 0;
}

-- the assignments to the columns of a row of the session
abbrev pub save_account : ℕ → Account → Action (Unit {0})
save_account u a = modify (λ t. record t { accounts = put u a t.accounts })

unfoldable pub get_by_user_id : ℕ → Action (Option Account)
get_by_user_id u = gets (λ t. find u t.accounts)

-- The row lock has no effect on what one request reads.
unfoldable pub get_for_update : ℕ → Action (Option Account)
get_for_update u = gets (λ t. find u t.accounts)

create_account : Option Account → ℕ → Action Account
create_account (some a) u = pure a
create_account none u = do save_account u (new_account u); commit; pure (new_account u)

unfoldable pub get_or_create_by_user_id : ℕ → Action Account
unfolding get_by_user_id create_account
get_or_create_by_user_id u = do account ← get_by_user_id u; create_account account u

flush_account : Option Account → ℕ → Action Account
flush_account (some a) u = pure a
flush_account none u = do save_account u (new_account u); pure (new_account u)

-- `_get_or_create_account_for_update`: a new row is flushed, and the caller commits.
unfoldable pub get_or_create_account_for_update : ℕ → Action Account
unfolding flush_account
get_or_create_account_for_update u = do
  account ← gets (λ t. find u t.accounts)
  flush_account account u

abbrev pub adjusted : Account → Deltas → Account
adjusted a d = record a {
  available_balance = a.available_balance +ℤ d.available;
  frozen_balance = a.frozen_balance +ℤ d.frozen;
  total_balance = a.total_balance +ℤ d.total;
  cumulative_withdrawn = a.cumulative_withdrawn +ℤ d.withdrawn;
  cumulative_fee = a.cumulative_fee +ℤ d.fee;
  version = a.version + 1;
}

unfoldable pub adjust_balance : ℕ → Deltas → Action Account
unfolding get_for_update commit
adjust_balance u d = do
  account ← or_raise (← get_for_update u) Error.account_missing
  raise_if (ltb_ℤ (account.available_balance +ℤ d.available) (pos 0)) Error.available_short
  raise_if (ltb_ℤ (account.frozen_balance +ℤ d.frozen) (pos 0)) Error.frozen_short
  save_account u (adjusted account d)
  commit
  invalidate_account_cache u
  pure (adjusted account d)

-- `account.last_settle_date is not None and account.last_settle_date >= settle_date`
settled_since : Option ℕ → ℕ → Bool
settled_since none date = false
settled_since (some last) date = leb date last

abbrev pub credited : Account → ℤ → ℕ → Account
credited a amount date = record a {
  available_balance = a.available_balance +ℤ amount;
  total_balance = a.total_balance +ℤ amount;
  last_settle_date = some date;
  version = a.version + 1;
}

unfoldable pub credit_account : ℕ → ℤ → ℕ → Account → Action Bool
unfolding settled_since commit
credit_account u amount date a =
    if settled_since a.last_settle_date date
    then pure false
    else (do save_account u (credited a amount date); commit; invalidate_account_cache u; pure true)

unfoldable pub credit_on_reconciliation : ℕ → ℤ → ℕ → Action Bool
unfolding credit_account get_or_create_by_user_id
credit_on_reconciliation u amount date =
    if leb_ℤ amount (pos 0)
    then pure false
    else (do account ← get_or_create_by_user_id u; credit_account u amount date account)

-- `try: …`, `except Exception as e: …`: the outcome becomes a value.
abbrev pub attempt : {A : Type 0} → Action A → Action (Result A)
attempt m s = let (r, s') = m s in (ok r, s')

pub record BatchItem : Type 0 where
  pub user_id : ℕ
  pub outcome : Result ℤ

abbrev pub new_available : Result Account → Result ℤ
new_available (ok a) = ok a.available_balance
new_available (err e) = err e

unfoldable pub adjust_balance_batch : List (ℕ × Deltas) → Action (List BatchItem)
adjust_balance_batch [] = pure []
adjust_balance_batch ((u, d) ∷ rest) = do
  r ← attempt (adjust_balance u d)
  items ← adjust_balance_batch rest
  pure (record { user_id = u; outcome = new_available r } ∷ items)

read_through : Option CacheEntry → ℕ → Action (Option Account)
read_through (some CacheEntry.empty) u s = (ok none, s)
read_through (some (CacheEntry.cached a)) u s = (ok (some a), s)
read_through none u s = elim (find u s.working.accounts) [
  | none ↦ (ok none, record s { cache = put u CacheEntry.empty s.cache })
  | some a ↦ (ok (some a), record s { cache = put u (CacheEntry.cached a) s.cache })
]

unfoldable pub get_account_cached : ℕ → Action (Option Account)
unfolding read_through
get_account_cached u s = read_through (find u s.cache) u s
