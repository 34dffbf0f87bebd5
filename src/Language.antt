-- ===== src/Language.antt =====
-- internal/language: the registry of language adapters and the choice among them.
pub mod Adapter
pub mod Registry
pub mod Registering
pub mod Choice
pub mod Confidence
