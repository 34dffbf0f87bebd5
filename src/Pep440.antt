-- ===== src/Pep440.antt =====
-- internal/report/pep440/pep440.go: versions of Python packages, parsed and compared.
pub mod Version
pub mod Compare
pub mod Order
pub mod Phases
pub mod Chain
pub mod Numbers
