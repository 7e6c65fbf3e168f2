-- ===== src/Limits.antt =====
-- What guards the services in Redis: the rate limits, and the filter of the goods that may exist.
pub mod Sliding
pub mod Fixed
pub mod Bloom
pub mod BloomLaws
