-- ===== src/Planning.antt =====
-- verification_domain/routing.py and verifier_execution/registry.py: which verifier and which
-- provider a credential or a claim is sent to.
pub mod Routing
pub mod Claims
