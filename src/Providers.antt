-- ===== src/Providers.antt =====
-- verifier_providers: what leaves the process towards a provider, and when.
pub mod Minimize
pub mod Http
pub mod Environment
pub mod Policy
pub mod Registry
pub mod Runtime
pub mod Stored
