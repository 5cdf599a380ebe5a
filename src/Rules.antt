-- ===== src/Rules.antt =====
-- The rules: internal/rules.
pub mod Catalog
pub mod Finding
pub mod Risks
pub mod Pod
pub mod Container
pub mod Evaluate
pub mod Psa
pub mod Verification
pub mod Drift
