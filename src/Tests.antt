-- ===== src/Tests.antt =====
-- Test data, and the theorems at concrete inputs.
pub mod Data
pub mod Balances
pub mod Withdrawals
pub mod Orders
pub mod Settlements
pub mod Breaker
pub mod Locks
pub mod Reviews
pub mod Menus
pub mod Limits
pub mod Sync
pub mod Refunds
pub mod Reconciliations
pub mod Commissions
