-- ===== src/Reconcile.antt =====
-- The daily reconciliation: backend/src/services/reconciliation_b13_service.py over
-- dao/reconciliation_query_dao.py, dao/reconciliation_diff_dao.py and dao/reconciliation_record_dao.py.
pub mod Query
pub mod Check
pub mod Service
pub mod Balance
pub mod RunLaws
pub mod Unsent
pub mod Keeps
pub mod ReviewLaws
