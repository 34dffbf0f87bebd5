-- ===== src/Vulnerability.antt =====
-- internal/report/vulnerability.go: findings on dependencies.
pub mod Ranks
pub mod Scores
pub mod Merging
pub mod Ecosystems
pub mod Advisories
pub mod Exceptions
pub mod Applying
pub mod Decisions
pub mod Suppression
