-- ===== src/Tests/Balances.antt =====
-- The theorems on backend/src/dao/user_commission_account_dao.py, at concrete inputs.
use gaking.Base.{◌≡◌, refl, false, [], ◌∷◌, arith}
use gaking.Base.Int.{pos, negsuc}
use gaking.Base.Table.{find}
use gaking.Store.Session.{Session, ok, CacheEntry, commit}
use gaking.Accounts.Dao.{Deltas, credit_on_reconciliation, get_or_create_by_user_id}
use gaking.Accounts.Balances.{IsSolvent, OfAccounts}
use gaking.Accounts.Reconciliation.{credit_on_reconciliation_once}
use gaking.Tests.Data.{session}

abbrev lock : Deltas
lock = record {
  available = negsuc 9999;
  frozen = pos 10000;
  total = pos 0;
  withdrawn = pos 0;
  fee = pos 0;
}

session-IsSolvent : OfAccounts IsSolvent session
session-IsSolvent = ((omega arith, tt), (omega arith, tt))

credit_on_reconciliation_once_example :
    let s' = (credit_on_reconciliation 1 (pos 700) 90 session).1 in
    credit_on_reconciliation 1 (pos 800) 89 s' ≡ (ok false, s')
unfolding credit_on_reconciliation get_or_create_by_user_id find commit
credit_on_reconciliation_once_example =
    credit_on_reconciliation_once 1 (pos 700) (pos 800) 90 89 session refl (omega arith)

abbrev marked : Session
marked = record session { cache = (2, CacheEntry.empty) ∷ [] }
