-- ===== src/Audit.antt =====
-- audit/service.py and audit/receipt_generator.py: payloads that may be stored, the receipt of a
-- run, and the receipt of a session's review.
pub mod Payloads
pub mod Counts
pub mod Receipts
pub mod Bundles
