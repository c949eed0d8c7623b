-- ===== src/Lib.antt =====
-- Verification of the backend of the AI business operating system (backend/src), a NestJS service
-- over a PostgreSQL database in which organizations keep agents, workflows, members and documents.
--
-- Parts. Base holds the shared helpers: Boolean tests, lists, database tables (find, modify, create,
-- remove), texts as character codes, and the monad of a service method, which reads and writes a
-- database and may throw; what was written before a throw stays, and the transactions of hardDelete
-- and persistGraph are one write each.
--   Tenant: shared/tenant. Roles has the permission matrix of permission.service.ts, Guards the three
--     guards of tenant.guard.ts, permissions.guard.ts and roles.guard.ts, which run in this order on a
--     request and pass the tenant context on in it.
--   Agents: modules/agents/agents.service.ts. State has the rows and the settings of a snapshot,
--     Service the methods (create_agent, update, deploy_version, rollback, archive and the others),
--     Attachments the tools and knowledge bases of an agent, Duplicate its copies and the search for a
--     free slug.
--   Ssrf: common/security/ssrf.ts. Guard has assertSafeUrl with its regular expressions as lists of
--     character classes, Fetch has safeFetch, which asks Guard before each hop.
--   Workflows: modules/workflows. Graph and Validation are graph.types.ts and graph.validation.ts, Run
--     is workflow-runner.ts, Service is workflows.service.ts, which validates a graph by Validation
--     before it stores it and hands a snapshot to the runner; Definitions and History join the two.
--   Members: modules/organizations and modules/invitations. The roles are Tenant's.
--   Auth: modules/auth/auth.service.ts with the refresh tokens, and the reset links in Redis.
--   Runtime: modules/agents/agent-runtime.service.ts and what it calls: Tasks, Registry (tools.service.ts),
--     Executor (tool-executor.ts), Quota, Memory and Prompt, which Loop and Run compose as the source does;
--     Conversations is modules/conversations. State has their rows and the calls that leave the
--     backend. Cases splits a run into its steps, on which Limits, Usage and Said stand.
--   Knowledge: modules/knowledge. Chunker is text-chunker.ts, Bases, Ingestion and Documents are
--     knowledge.service.ts, which cuts a text by Chunker; its audit entries are Runtime's.
--   Gateway: modules/ai/gateway, the choice of a provider and its embeddings.
--   Integrations: modules/integrations. Credentials is credentials.service.ts on bytes, Service is
--     integrations.service.ts over an interface of secrets.
--
-- Parameters. URL parsing, lower-casing, password hashing, token signatures, token hashes, the
-- network, the node handlers, the evaluation of edge conditions, the models and their embeddings, the
-- tools' bodies, the JSON and schema checks, the extractors and the tokens of a text are arguments.
-- The client of the raw SQL statements (Base.Sql) is one too: the services pass it their values as
-- one array, and the hypothesis Spreads is what its documentation says, that it takes the values one
-- by one. Random values, new ids, times and slugs are arguments too. Each method runs to its end
-- before the next one starts; JSON values are kept as their texts.
--
-- Fuel. The search of the validation gets the number of edges plus two, since each deeper call colours
-- a new target of an edge. The walk of the runner takes any fuel; on a validated graph the length of
-- the topological order is enough. The fetch loop recurs on the hops that are left, the loop of an agent
-- run on its ten iterations. hardSplit gets the length of the text and the batches of an ingestion get
-- the number of the pieces.
--
-- Not modelled: the retrieval and the long-term memory (raw SQL on vectors), the providers, connectors,
-- mail, storage, audit queries, analytics and billing, of which most call remote services or only
-- query; controllers, configuration and the frontend. Of the runner parallel branches run in one schedule
-- only, and runs of agents and ingestions go one after the other. The row-level security of
-- prisma/sql/rls.sql is modelled in the methods of Runtime.Registry only; elsewhere a query sees the
-- rows that its own conditions say.
mod Base
pub mod Tenant
pub mod Agents
pub mod Ssrf
pub mod Workflows
pub mod Members
pub mod Auth
pub mod Runtime
pub mod Knowledge
pub mod Gateway
pub mod Integrations
