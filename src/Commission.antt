-- ===== src/Commission.antt =====
-- The flows that are generated and marked for an order: backend/src/services/commission_service.py.
pub mod Service
pub mod ServiceLaws
