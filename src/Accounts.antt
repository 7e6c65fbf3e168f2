-- ===== src/Accounts.antt =====
-- Commission accounts: dao/user_commission_account_dao.py. A DAO method is an action on the shared
-- session; `Balances` and `Reconciliation` have the balances, `Cache` the read-through cache.
pub mod Dao
pub mod Balances
pub mod Reconciliation
pub mod Cache
