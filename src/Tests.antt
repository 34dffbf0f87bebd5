-- ===== src/Tests.antt =====
-- Runs of the modelled functions at concrete inputs, and each theorem at an input.
mod Versions
mod Comparing
mod Advisories
mod Flags
mod Merging
mod Samples
mod Languages
mod Masks
mod Exceptions
mod Policies
mod Reports
mod Cells
mod Baselines
