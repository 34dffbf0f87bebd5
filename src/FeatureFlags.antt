-- ===== src/FeatureFlags.antt =====
-- internal/featureflags: the registry of feature flags and the resolution of a build's flags.
pub mod Flag
pub mod Registry
pub mod Resolve
pub mod Normal
pub mod Registering
pub mod Invariant
pub mod Lookup
pub mod Overrides
pub mod NextCode
pub mod Manifest
