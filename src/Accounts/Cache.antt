-- ===== src/Accounts/Cache.antt =====
-- The read-through cache of accounts: get_account_cached and the invalidation after a commit, of
-- backend/src/dao/user_commission_account_dao.py.
use gaking.Base.{ℕ, ◌≡◌, ap, inl, inr, Option-cases, Option, none, some, arith, []}
use gaking.Base.Table.{find, find-put, find-remove, find-put_self}
use gaking.Store.Types.{Account}
use gaking.Store.Session.{Session, CacheEntry, ok, commit}
use gaking.Accounts.Dao.{
  Deltas, adjusted, adjust_balance, get_account_cached, get_or_create_by_user_id, new_account,
}

-- A cache entry says of an account what the database holds.
abbrev pub Agrees : Option CacheEntry → Option Account → Type 0
Agrees none row = Unit
Agrees (some CacheEntry.empty) row = row ≡ none
Agrees (some (CacheEntry.cached a)) row = row ≡ some a

abbrev pub IsCoherent : ℕ → Session → Type 0
IsCoherent u s = Agrees (find u s.cache) (find u s.committed.accounts)

-- The session has no uncommitted change to an account.
abbrev pub IsClean : Session → Type 0
IsClean s = s.working.accounts ≡ s.committed.accounts

-- In a clean session with a coherent cache a cached read returns what the database holds, and
-- leaves the cache coherent.
pub get_account_cached-IsCoherent :
    (u : ℕ) (s : Session)
    → IsClean s
    → IsCoherent u s
    → let (r, s') = get_account_cached u s in
      (r ≡ ok (find u s.committed.accounts)) × IsCoherent u s'
unfolding get_account_cached
get_account_cached-IsCoherent u s clean h = elim (Option-cases (find u s.working.accounts)) [
  | inl missing ↦ ground (arith, ap (find u) clean, find-put_self u CacheEntry.empty s.cache)
  | inr (a, found) ↦
      ground (arith, ap (find u) clean, find-put_self u (CacheEntry.cached a) s.cache)
]

-- In a clean session a balance change leaves a coherent cache of any account coherent, also where its
-- commit fails.
pub adjust_balance-IsCoherent :
    (u v : ℕ) (d : Deltas) (s : Session)
    → IsClean s
    → IsCoherent v s
    → IsCoherent v (adjust_balance u d s).1
unfolding adjust_balance
adjust_balance-IsCoherent u v d s clean h = elim (Option-cases (find u s.working.accounts)) [
  | inl missing ↦ ground arith
  | inr (a, found) ↦ ground (
    arith,
    ap (find v) clean,
    find-remove u v s.cache,
    find-put u v (adjusted a d) s.working.accounts,
  )
]

-- `get_or_create_by_user_id` commits a new account and leaves the mark of its absence in the cache:
-- the next cached read denies the account.
pub get_or_create_stale :
    (u : ℕ) (s : Session)
    → find u s.working.accounts ≡ none
    → find u s.cache ≡ some CacheEntry.empty
    → s.faults ≡ []
    → let s' = (get_or_create_by_user_id u s).1 in
      (find u s'.committed.accounts ≡ some (new_account u))
      × ((get_account_cached u s').0 ≡ ok none)
unfolding get_or_create_by_user_id get_account_cached commit
get_or_create_stale u s missing marked fine =
    ground (arith, find-put_self u (new_account u) s.working.accounts)
