-- ===== src/Store.antt =====
-- The state that the services share: the rows (`Types`), and the session with its cache (`Session`).
pub mod Types
pub mod Reconciliation
pub mod Session
pub mod Keeps
