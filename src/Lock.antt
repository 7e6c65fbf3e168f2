-- ===== src/Lock.antt =====
-- The distributed lock of backend/src/common/lock_util.py.
pub mod Redis
pub mod Lease
pub mod Refinement
pub mod Exclusion
pub mod Abandoned
