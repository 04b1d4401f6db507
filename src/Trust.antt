-- ===== src/Trust.antt =====
-- backend/app/trust: claim findings and the document's verdict.
pub mod Codes
pub mod Claims
pub mod Findings
pub mod Fields
pub mod Items
pub mod Engine
