-- ===== src/Thresholds.antt =====
-- internal/thresholds: the thresholds of an analysis and the overrides laid over them.
pub mod Values
pub mod Apply
pub mod Accepted
pub mod DenyList
