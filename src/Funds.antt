-- ===== src/Funds.antt =====
-- What the frozen balance of a user has to cover, and that every flow of
-- backend/src/services/withdraw_service.py and of the two settlement services keeps it covered.
pub mod Cover
pub mod Keeps
pub mod Claims
pub mod Withdraws
pub mod Success
pub mod Holds
pub mod Transactions
pub mod Settlements
pub mod Reviews
pub mod Run
pub mod Final
