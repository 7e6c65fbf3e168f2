-- ===== src/Refund.antt =====
-- Taking a commission back after a refund: backend/src/services/commission_flow_validation_service.py,
-- services/refund_deduction_service.py and services/b07_1_reverse_commission_service.py.
pub mod Validate
pub mod Deduct
pub mod ValidateLaws
pub mod DeductLaws
pub mod Once
pub mod Reverse
pub mod ReverseBatch
pub mod ReverseKeeps
pub mod Run
pub mod NoneFailed
pub mod Listed
pub mod Stuck
pub mod Keeps
