-- ===== src/Settlement.antt =====
-- The settlement of commissions: services/commission_settlement_b12_service.py,
-- services/settlement_state_machine.py, services/commission_settlement_service.py,
-- services/commission_rule_engine.py and the DAOs below them, all in backend/src.
pub mod Machine
pub mod MachineLaws
pub mod AtomicLaws
pub mod RoundTrip
pub mod Atomic
pub mod Rules
pub mod Freeze
pub mod TextStatus
pub mod FreezeOnce
pub mod Settle
pub mod SettleLaws
pub mod BatchLaws
pub mod FreezeBatch
