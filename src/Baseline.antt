-- ===== src/Baseline.antt =====
-- internal/report/baseline_diff.go: the comparison of a report with an earlier one, its baseline.
pub mod Keys
pub mod Versions
pub mod Pairing
pub mod Bridges
mod Groups
mod Marks
mod Sides
pub mod Coverage
pub mod Runtime
pub mod Deltas
pub mod Comparison
pub mod Balance
pub mod Distance
pub mod Unchanged
pub mod Modules
