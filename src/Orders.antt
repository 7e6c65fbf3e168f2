-- ===== src/Orders.antt =====
-- The life of an order: the statuses and their transitions (`Status`), the service that carries a
-- transition out and logs it (`Service`), and what they guarantee.
pub mod Status
pub mod Service
pub mod Transitions
pub mod Lifecycle
