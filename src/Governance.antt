-- ===== src/Governance.antt =====
-- The tag governance engine, src/governance/: schema, normalisation, validation, evaluation.
pub mod Models
pub mod Normalizer
pub mod Validators
pub mod Policy
pub mod Engine
