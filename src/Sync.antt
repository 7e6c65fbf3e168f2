-- ===== src/Sync.antt =====
-- The orders that the channels are asked for: backend/src/services/order_sync_service.py.
pub mod Windows
pub mod Persist
pub mod Index
pub mod Unique
pub mod Upsert
pub mod Pull
pub mod PullLaws
pub mod Retry
pub mod Rounds
