-- ===== src/Merge.antt =====
-- internal/analysis/merge.go and merge_report_families.go: the results of several language adapters
-- merged into one.
pub mod Unique
pub mod Runtime
pub mod Imports
pub mod Advice
pub mod Families
pub mod ImportKeys
pub mod Evidence
pub mod Faithful
pub mod Safety
pub mod Counts
pub mod Reports
pub mod Grouping
pub mod Distinct
pub mod Digits
pub mod Codemods
