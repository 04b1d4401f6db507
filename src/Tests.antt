-- ===== src/Tests.antt =====
-- Runs of the modelled code on concrete inputs, and the theorems applied to concrete inputs.
mod Workflow
mod Trust
mod Execution
mod Gemini
mod Jobs
mod States
mod Connectors
mod Worker
mod Audit
mod Providers
mod Planning
mod Closing
mod Engine
mod Runs
