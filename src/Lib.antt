-- ===== src/Lib.antt =====
-- Verification of the document verification engine's back end (backend/app).
--
-- A session is a row of a table. An upload brings it to UPLOADED_PENDING_REVIEW and puts a job into
-- a queue; a worker takes the job, acquires the session's lease, runs the pipeline, and leaves the
-- session for a human review, or in a state of failure. The pipeline's last stage turns the results
-- of the verifiers into a verdict in three colours. Verifiers are run task by task, each over a
-- chain of providers.
--
-- The program's parts and their models:
-- - Base: what the models share. Base/Equality has Python's == and `in` by instances, Base/Lists
--   lists, `dict.fromkeys` and generator expressions, Base/Texts the methods of `str` on ASCII,
--   Base/Tables the SELECT and UPDATE statements on rows with a primary key, Base/Reals the floats.
-- - Workflow/States: backend/app/sessions/constants.py and workflow/state_machine.py, the states
--   and ALLOWED_TRANSITIONS. Workflow/States/Graph follows the walks of that table.
-- - Workflow/Failures: workflow/failures.py, classify_failure.
-- - Workflow/Sessions: workflow/repository.py over the columns of sessions/models.py that it uses.
--   `transition_state` is the read, the check and the conditional UPDATE, which is `swap_state` on
--   its own, so that other workers can run between them (Workflow/Sessions/Races).
-- - Workflow/Jobs: workflow/job_queue.py and orchestrator/orchestrator.py, the queue. `claim` is the
--   conditional UPDATE of dequeue_job.
-- - Workflow/Pipeline: workflow/service.py, run_worker_pipeline, its phases, completion and failure
--   handler, in a monad of the table and of what was raised. `under` is the variable failure_type.
-- - Workflow/Issuing: workflow/service.py, _build_completion_values, over the audit tables.
-- - Workflow/Worker: worker/worker.py, one pass of the loop of run_worker.
-- - Workflow/Closing: workflow/runtime.py, close_session, and cleanup/controller.py.
-- - Workflow/Connectors: workflow/service.py, call_connector_with_retry and
--   _normalize_connector_result.
-- - Trust/Codes, Trust/Claims, Trust/Claims/Best, Trust/Findings: trust/findings.py, from the reason
--   codes to build_trust_findings.
-- - Trust/Fields, Trust/Items, Trust/Engine: trust/trust_engine.py, the decision on a field, the
--   results of connectors and tasks, and evaluate_trust.
-- - Execution, Execution/Candidates, Execution/Bundles: verifier_execution/executor.py with the
--   parts of contracts.py and adapters.py that it uses. Functions keep the source's names without
--   the leading underscore.
-- - Gemini: agent_orchestration/providers/gemini_pool.py, the pool of API keys. Gemini/Keys,
--   Gemini/Rotation, Gemini/Order, Gemini/Cooldown and Gemini/Exhausted have its theorems.
-- - Json: JSON values. Audit/Payloads, Audit/Counts and Audit/Receipts: audit/service.py, what may be
--   stored, the counts of findings, and upsert_final_review_receipt over the table of receipts, with
--   the summary of a receipt in Audit/Receipts/Summary. Audit/Bundles: audit/receipt_generator.py and
--   store_audit_bundle, the receipt of a run as a dict, its nonce and its event.
-- - Providers/Minimize, Providers/Environment, Providers/Policy: verifier_providers/policies.py, the
--   minimised payload and the policy that the environment gives. Providers/Registry: registry.py
--   with the capabilities of providers/*.py. Providers/Http: http_client.py, SafeHttpJsonClient.
--   Providers/Runtime and Providers/Stored: service.py, the attempts with their traces, and the
--   columns of a session that a failure is marked in. A run itself persists nothing.
-- - Planning/Routing: verification_domain/routing.py, the route of a credential. Planning/Claims:
--   verifier_execution/registry.py, the candidates of a claim.
-- - Tests: runs on concrete inputs.
--
-- Conventions and bounds:
-- - Texts are byte strings, and upper, lower, strip and title work on ASCII.
-- - Times are natural numbers of microseconds; each reading of the clock is an argument.
-- - A float is an element of a type with an order, sums, products and decimal literals, an instance
--   argument. The theorem that needs laws of it names them in FloatLaws: laws of finite numbers and
--   of what lies below them, as floats have them, which also natural numbers of ten-thousandths
--   satisfy.
-- - A status that the code compares with constants only is an enumeration in Workflow and in
--   Trust/Fields; where other values can arrive (the results of verifiers) it is a text.
-- - No model uses fuel: every loop runs over a list, but the retries of one API key, which count
--   down from GEMINI_POOL_MAX_RETRIES_PER_KEY.
-- - Statements that can interleave are steps of their own: a session's read and its conditional
--   update, a job's SELECT and its INSERT, a job's read and its claim. Whether the database takes the
--   mark of a job, and whether it takes a row of the audit tables beyond the columns' declarations,
--   are arguments.
-- - Reading n of the monotonic clock and call n of a client are functions of n.
-- - An SQL statement is atomic. Where several statements stand between two commits, they act on the
--   table at once, and an exception keeps what a statement before it did.
-- - The order in which Python iterates over a set is left open by the language; here it is the order
--   in which the elements are written.
--
-- Not modelled: the background thread of the heartbeat (its statement is, as a step of
-- Workflow/Sessions/Leases), logging, the stages of the pipeline and the verifiers, which are
-- arguments; OCR and extraction, language-model calls, HTTP routes, authentication, HMACs and encoders,
-- demonstration data and the front end, which are input, output or third-party code around the core.
pub mod Base
pub mod Workflow
pub mod Trust
pub mod Execution
pub mod Audit
pub mod Gemini
pub mod Json
pub mod Planning
pub mod Providers
pub mod Tests
