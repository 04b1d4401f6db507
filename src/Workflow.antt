-- ===== src/Workflow.antt =====
-- backend/app/workflow and backend/app/sessions: the session lifecycle and its database statements.
pub mod States
pub mod Failures
pub mod Sessions
pub mod Jobs
pub mod Connectors
pub mod Pipeline
pub mod Worker
pub mod Closing
pub mod Issuing
