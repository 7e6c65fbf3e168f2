-- ===== src/Breaker.antt =====
-- The circuit breaker of one channel: `Circuit` has its operations, `Cycle` what they guarantee.
pub mod Circuit
pub mod Cycle
