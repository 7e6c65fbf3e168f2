-- ===== src/Attribution.antt =====
-- Which user an order of a channel belongs to.
pub mod Engine
pub mod EngineLaws
