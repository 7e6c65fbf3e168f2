-- ===== src/Store/Session.antt =====
-- The database session that the DAOs of one request share, and the account cache in Redis.
-- `working` is what the session sees, `committed` what the database holds. A commit may fail:
-- `faults` lists the outcomes of the commits to come, and past its end every commit succeeds.
use gaking.Base.{
  ℕ, Bool, true, false, Option, none, some, List, [], ◌∷◌, if◌then◌else◌, ◌≡◌, refl, ◌⊎◌, inl, inr,
}
use gaking.Base.Int.{ℤ}
use gaking.Base.Table.{Table, remove}
use gaking.Breaker.Circuit.{Keys}
use gaking.Store.Types.{
  Account, WithdrawApply, CommissionFlow, Order, SettlementRecord, OrderOperationLog,
  WithdrawReviewLog, SettlementOperationLog, AbnormalOrder, ClickLog, ValidationLog, RefundLog,
  ReverseRecord,
}
use gaking.Store.Reconciliation.{Batch, Diff}

-- The tables, each by its primary key but the accounts, which are read by `user_id`. `next_…` is
-- the next value of an auto-increment column.
pub record Tables : Type 0 where
  pub accounts : Table Account
  pub applies : Table WithdrawApply
  pub next_apply : ℕ
  pub flows : Table CommissionFlow
  pub next_flow : ℕ
  pub orders : Table Order
  pub next_order : ℕ
  pub settlements : Table SettlementRecord
  pub next_settlement : ℕ
  pub order_logs : List OrderOperationLog
  pub review_logs : List WithdrawReviewLog
  pub settlement_logs : List SettlementOperationLog
  pub abnormal_orders : List AbnormalOrder
  pub clicks : List ClickLog
  pub validation_logs : List ValidationLog
  pub refund_logs : List RefundLog
  pub reverse_records : Table ReverseRecord
  pub next_reverse : ℕ
  pub batches : Table Batch
  pub next_batch : ℕ
  pub diffs : Table Diff
  pub next_diff : ℕ

-- What gaking:prod:user_account:{user_id} holds: the mark `__EMPTY__`, or an account as JSON.
pub data CacheEntry : Type 0 where
  empty : CacheEntry
  cached : Account → CacheEntry

-- `breaker` are the keys of the channel of the service that is called: "settlement" or "reconciliation".
-- `daily_used` is gaking:prod:withdraw:daily_used:{user_id}:{today}, the mark `__EMPTY__` read as 0.
pub record Session : Type 0 where
  pub committed : Tables
  pub working : Tables
  pub cache : Table CacheEntry
  pub daily_used : Table ℤ
  pub breaker : Keys
  pub faults : List Bool

-- The conditions under which the services raise, and a commit that fails.
pub data Error : Type 0 where
  account_missing available_short frozen_short commit_failed : Error
  too_frequent below_minimum busy over_daily_limit balance_short : Error
  apply_missing apply_status : Error
  order_missing order_status transition_refused : Error
  amount_not_positive overdraft flow_missing : Error
  unknown_status same_status illegal_transition : Error
  breaker_open settlement_missing rate_sum many_rows : Error
  validation_failed session_inactive : Error
  row_missing terminal_status unexpected_argument empty_argument : Error

pub data Result (A : Type 0) : Type 0 where
  ok : A → Result A
  err : Error → Result A

pub Result-cases :
    {A : Type 0} (r : Result A) → ((a : A) × (r ≡ ok a)) ⊎ ((e : Error) × (r ≡ err e))
Result-cases (ok a) = inl (a, refl)
Result-cases (err e) = inr (e, refl)

abbrev pub Action : Type 0 → Type 0
Action A = Session → Result A × Session

infixl 5 ◌>>=◌ ◌>>◌
abbrev pub ◌>>=◌ : {A B : Type 0} → Action A → (A → Action B) → Action B
◌>>=◌ m f s = let (r, s') = m s in elim r [ ok a ↦ f a s' | err e ↦ (err e, s') ]

abbrev pub ◌>>◌ : {A B : Type 0} → Action A → Action B → Action B
m >> k = m >>= λ _. k

module _ {A : Type 0} where
  abbrev pub pure : A → Action A
  pure a s = (ok a, s)

  abbrev pub raise : Error → Action A
  raise e s = (err e, s)

  abbrev pub gets : (Tables → A) → Action A
  gets f s = (ok (f s.working), s)

  -- `if x is None: raise ValueError(…)`
  abbrev pub or_raise : Option A → Error → Action A
  or_raise none e = raise e
  or_raise (some a) e = pure a

abbrev pub raise_if : Bool → Error → Action (Unit {0})
raise_if c e s = (if c then err e else ok tt, s)

abbrev pub modify : (Tables → Tables) → Action (Unit {0})
modify f s = (ok tt, record s { working = f s.working })

-- `try: flush(); commit()`, `except: rollback(); raise`
unfoldable pub commit_with : List Bool → Action (Unit {0})
commit_with [] s = (ok tt, record s { committed = s.working })
commit_with (true ∷ rest) s = (ok tt, record s { committed = s.working; faults = rest })
commit_with (false ∷ rest) s =
    (err Error.commit_failed, record s { working = s.committed; faults = rest })

unfoldable pub commit : Action (Unit {0})
unfolding commit_with
commit s = commit_with s.faults s

-- `commit()` with no handler: after one that fails the session raises at every use, until a `rollback()`.
-- `session_inactive` stands for that failure, and for what such a use raises.
unfoldable pub commit_bare_with : List Bool → Action (Unit {0})
commit_bare_with [] s = (ok tt, record s { committed = s.working })
commit_bare_with (true ∷ rest) s = (ok tt, record s { committed = s.working; faults = rest })
commit_bare_with (false ∷ rest) s =
    (err Error.session_inactive, record s { working = s.committed; faults = rest })

unfoldable pub commit_bare : Action (Unit {0})
unfolding commit_bare_with
commit_bare s = commit_bare_with s.faults s

-- `_invalidate_account_cache`: the cache key is deleted.
abbrev pub invalidate_account_cache : ℕ → Action (Unit {0})
invalidate_account_cache u s = (ok tt, record s { cache = remove u s.cache })

-- `result.scalar_one_or_none()`
unfoldable pub one_or_none : {V : Type 0} → List V → Action (Option V)
one_or_none [] = pure none
one_or_none (v ∷ []) = pure (some v)
one_or_none (v ∷ w ∷ rest) = raise Error.many_rows
