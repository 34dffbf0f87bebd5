-- ===== src/Osv.antt =====
-- internal/report/osv_versions.go: whether an advisory affects an installed version.
pub mod Events
pub mod Match
pub mod Timeline
pub mod Agreement
pub mod Ranges
