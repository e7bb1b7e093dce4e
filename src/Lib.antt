-- ===== src/Lib.antt =====
-- Wknowledge: the parts of the knowledge base's server that keep work, limits and agent runs in order,
-- modelled as functions over explicit state, with the properties that make them correct.
--
-- The program's background work goes through a job queue port; the server profile runs processing
-- jobs under database leases and hands them to the queue by an outbox; requests and model calls are
-- counted by rate limits; an agent run is a validated script whose events are projected into rows;
-- skills are let through by a policy; the database is upgraded by a plan. The local profile keeps its
-- sessions in a repository with two implementations; the wiki is cut into pages, compared by line and
-- published by renames.
--
-- Files, and the code that each models:
--   JobQueue, JobQueue/Ids: the port's types, states and ids
--     (packages/core/src/job-queue-port.ts).
--   JobQueue/Memory and its children: createInMemoryJobQueuePort of the same file. The closure's
--     variables `jobs`, `byIdempotencyKey` and `sequence` are the record MemoryQueue; enqueue, claim,
--     complete, fail, cancel and recoverExpiredLeases are functions of it, an exception is `err`, and
--     a Map is a list of entries in the order of insertion.
--   JobQueue/Sqlite: createSqliteJobQueuePort (packages/core/src/sqlite-job-queue.ts), its
--     statements as functions on the rows in the order of `seq`; JobQueue/Sqlite/Reopened is about a file
--     that is opened again.
--   ProcessingLease: packages/database/src/processing-execution-lease.ts, each statement a function
--     on the rows of `processing_job`. ProcessingLease/Exclusion interleaves the statements of any
--     workers as a list of calls.
--   ProcessingControl: retryProcessingJob, cancelProcessingJob and resumeProcessingJob
--     (packages/core/src/index.ts), each a function on the tables that an error leaves as they were;
--     ProcessingControl/Worker: the statements of apps/worker/src/index.ts that claim and end a job;
--     ProcessingControl/Interleaved runs both in any order.
--   Outbox: dispatchPendingProcessingOutbox (packages/core/src/job-outbox.ts).
--   RateLimit: packages/database/src/request-rate-limit.ts over a map from keys to counters.
--   AgentCore: validateAgentCoreScript and InternalAgentCoreAdapter.run
--     (packages/agent-runtime/src/agent-core.ts); the abort signal is a function of the event's number.
--   Projection: persistAgentCoreEventProjection (packages/core/src/agent-run-event-projection.ts), with
--     what its checks let through in Projection/Checks and its effect in Projection/Settlement.
--   Conversation: compactAgentConversation (packages/agent-runtime/src/knowledge-component.ts).
--   SkillPolicy: evaluateSkillPolicy and verifySkillPermission (packages/skill-runtime/src/index.ts).
--   SkillApproval: the decision, request and expiry of approvals, and the listing of policies
--     (packages/core/src/skill-approvals.ts, packages/core/src/session-skill-execution.ts).
--   ModelBudget: createModelInvocationBudgetGuard (packages/core/src/model-invocation-budget.ts), a
--     client of RateLimit.
--   ProviderEndpoint: publicIp, mappedIpv4Address, validateProviderEndpoint and resolveProviderEndpoint
--     (packages/model-gateway/src/index.ts); the parser of URLs, isIP and the resolution of a host name
--     are parameters. ProviderEndpoint/Addresses reads addresses, ProviderEndpoint/Hex and
--     ProviderEndpoint/Mapped are about that reading.
--   ToolRegistry: packages/agent-runtime/src/agent-tool-registry.ts, the policy bridge a parameter.
--   SessionRepository and its children: the repository of sessions, messages, runs and events
--     (packages/core/src/agent-session-repository-port.ts) in SessionRepository/Memory, and its
--     adapter (packages/core/src/sqlite-agent-session-repository.ts) in SessionRepository/Sqlite, with
--     the statements on its tables in SessionRepository/Tables. SessionRepository/Agreement and
--     SessionRepository/Refinement compare the two; SessionRepository/Order is about the ids by which
--     messages are listed, SessionRepository/Sequences about the numbers of a run's events.
--   Wiki/Diff, Wiki/Sections, Wiki/Publication: diffLines, knowledgeSections, and the renames of
--     publishWikiDirectory with recoverWikiPublicationArtifacts (packages/wiki/src/index.ts). Whether each
--     rename and the removal of the backup work, and what the removal leaves after each step, is a
--     parameter.
--   MigrationPlan: planDatabaseUpgrade and the journal's checks
--     (packages/database/src/migration-plan.ts).
--   Base and its children: texts as lists of UTF-16 units, maps, results, decimal numerals.
--   Examples and its children: runs on concrete inputs.
--
-- Conventions. Texts are lists of code units, times and counts natural numbers; a reading of the clock
-- is an argument. A database transaction that throws leaves the tables as they were. The hash of
-- the rate limits' keys and the queue that the outbox publishes to are parameters. The
-- loop of the outbox recurses on its limit, and every other loop on its list. Only the printing of a
-- number counts down from one more than the number, which is more than it has digits.
--
-- Not modelled: the web application and the worker's input and output, the schemas of
-- packages/contracts, the compiling of packages/wiki by a model and its files, the requests of
-- packages/model-gateway, packages/auth, packages/blob-store, the database schema, and the domain
-- services of packages/core that only assemble queries; `list` of the two queues, and the values that no
-- natural number stands for (fractions, negative numbers, NaN) in the guards that refuse them.
pub mod Base
pub mod JobQueue
pub mod ProcessingLease
pub mod ProcessingControl
pub mod RateLimit
pub mod Conversation
pub mod AgentCore
pub mod Projection
pub mod SkillPolicy
mod Examples
pub mod Outbox
pub mod MigrationPlan
pub mod SkillApproval
pub mod ModelBudget
pub mod ProviderEndpoint
pub mod ToolRegistry
pub mod Wiki
pub mod SessionRepository
