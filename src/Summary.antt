-- ===== src/Summary.antt =====
-- internal/report/summary.go: the summary of a report. A counter of a Go map that is missing is 0.
pub mod Licenses
pub mod Vulnerabilities
pub mod Languages
pub mod Totals
pub mod Breakdown
