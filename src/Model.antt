-- ===== src/Model.antt =====
-- internal/report/model: the data that reports hold.
pub mod Parts
pub mod Dependency
