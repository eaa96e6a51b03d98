-- ===== src/Lib.antt =====
-- DevFlowFix decides whether a failure of continuous integration is fixed automatically, executes the
-- fix and keeps outside services from being overrun. This library models the parts of it that carry
-- these decisions.
--
-- Parts and files
-- Base: Python's lists, dictionaries with text keys and texts, and Boolean tests on numbers.
-- Core: app/core/enums.py (Enums), app/core/models/incident.py (Incident),
--   app/core/models/context.py (Context), app/core/models/remediation.py (Plan).
-- Breaker: app/utils/circuit_breaker.py. `enter` and `leave` are `_call_async` before and after its
--   await, `call` is `_call_sync`; every transition and handler has a function of its name.
-- Retry: app/utils/retry.py. `retry` is the loop that the decorator, `retry_sync` and `retry_async`
--   share, with the number of attempts as the bound of its recursion, so no fuel is needed.
-- Validation, Limits, PreRemediation, PostRemediation: app/domain/validators/base.py,
--   blast_radius.py, pre_remediation.py and post_remediation.py, a function for each check and one
--   for `validate`.
-- Rules: app/domain/rules, a module for each rule.
-- Strategy: app/domain/strategies/base.py, with the interface that a concrete strategy fills;
--   conservative.py, slack_first.py, hybrid.py and vector_db.py, which fill it (Conservative,
--   SlackFirst, Hybrid, VectorDb); and factory.py, which chooses among them (Factory).
-- Decision: app/services/decision.py.
-- Remediator: app/services/remediator.py. `begin` and `finish` are `execute_remediation` before and
--   after it awaits the remediator; Entry is `execute`, which makes the plan, and Factory is
--   app/domain/remediators/factory.py.
-- Processor: app/services/event_processor.py, from the decision on.
-- PullRequests and Payload: of app/services/event_processor.py, the pull requests created after an
--   analysis, and the stored copy of a payload. `levels` is the bound of the recursion of the copy;
--   the code's own test of the depth gives it, so no fuel is added.
-- Approvals: app/adapters/external/slack/approvals.py. `check_callback` and `finish_callback` are
--   `handle_callback` before and after it awaits the update of the message; Interleavings runs them
--   among other calls of the adapter.
-- Webhooks: app/adapters/external/github/webhooks.py, up to the details copied out of payloads.
-- Cache: app/adapters/ai/nvidia/cache.py, the cache in memory.
-- Jobs: app/adapters/database/postgres/repositories/jobs.py, with its queries in Queries, and its
--   tables of models.py.
-- Tokens: app/services/oauth/token_manager.py.
-- GitHubTokens: app/services/github_token_manager.py, with its table of models.py.
-- Workflows: app/services/workflow/workflow_tracker.py, with the transaction that
--   app/api/v1/webhook_provider_handlers.py puts around an event; Tables are its tables of
--   models.py, with what their columns ask, and Made is the row that an event makes.
-- Intake: app/api/v1/webhook_payloads.py, for events of GitHub, and in Created the incident that
--   app/services/event_processor.py makes of a payload.
-- Retriever: app/services/retriever.py, `retrieve_similar_incidents` and its cache.
-- Edits: app/services/pr_creator.py, the text that a code change gives a file; Writes holds
--   `_apply_code_changes` and `_apply_config_changes`.
-- RateLimit: app/middleware.py, the rate limit, and in Address the address of a client.
--
-- The decision service asks the rules, then its strategy, then the checks for production. The
-- remediator service asks the two validators before it executes a fix, and reports start and end to
-- the blast radius validator; it then asks the validator of executed fixes. The event processor
-- follows the decision: it fixes, asks for approval, escalates or leaves the incident open. The other
-- parts keep a store each, which many requests share: pending approvals, cached embeddings, counts of
-- requests, jobs and connections.
--
-- How the code is modelled
-- A method that changes its object returns the new record. Times are numbers of one fixed unit
--   (microseconds in Limits and Rules), and every reading of the clock is an argument of its own.
-- A confidence is a finite float that is not negative, given by its place in the order of floats;
--   the decimals of the code are an argument, `Decimals`, and so is the arithmetic of the strategies,
--   `Scaling` and `Floats`, with laws of rounding. All other modelled code only compares confidences.
-- What goes to the logger, messages and metadata are left out; of a fix the log in its result is kept.
-- Texts are native texts; lower case is that of ASCII letters.
--
-- Code outside the repository is an argument: the cipher of tokens, with the law that it gives
--   back what it encrypted; the keyed hash and the reader of JSON of webhooks; the order in which
--   the database lists jobs; the reader of addresses; the creator of pull requests; the contents
--   of a branch at GitHub, where a write gives one file its text; and the readers of integers and
--   of dates; and what the database asks of a run besides the nulls and lengths of its columns.
--
-- Not modelled: the confidence scorer, which no other part calls; the remediators, which are an
-- argument of the service; the payloads of other sources than GitHub, and the analyzer; the
-- adapters of databases but that of jobs, of whose searches for similar incidents the retriever
-- takes a record; those of language models, GitHub and Redis, the messages of Slack, the rest of
-- the HTTP interface and the scripts, which call third-party code.
pub mod Base
pub mod Breaker
pub mod Retry
pub mod Core
pub mod Validation
pub mod Limits
pub mod Rules
pub mod PreRemediation
pub mod PostRemediation
pub mod Remediator
pub mod Processor
pub mod Approvals
pub mod Cache
pub mod RateLimit
pub mod Jobs
pub mod Tokens
pub mod PullRequests
pub mod Payload
pub mod Webhooks
pub mod Edits
pub mod GitHubTokens
pub mod Workflows
pub mod Intake
pub mod Retriever
pub mod Strategy
pub mod Decision
