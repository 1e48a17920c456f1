-- ===== src/Lib.antt =====
-- PairDock: the orchestration API (apps/api), which keeps the sessions of product managers and
-- developers, and the local agent runtime (packages/local-agent), which runs prompts and checks on
-- a developer's machine; they exchange the messages of packages/shared-contracts.
--
-- How the parts interact: a user starts a session (Session/Start), if the agent of its project is
-- connected (Agents). The agent publishes events while it prepares the session and runs prompts
-- (Prompt); the API stores what they make of the session (Session/Events) by the state machine
-- (Session/Machine), and a passed checks result opens the way to a review request (Review). On its
-- machine the agent keeps the workspaces of its sessions (Workspaces), with their sandboxes and tunnels
-- (Runner), and acknowledges the commands of the API (Client). A developer pairs an agent with the
-- API (Onboarding), and GitHub tells the API what becomes of a review request (Webhooks).
--
-- The files, and what they model:
-- - Prelude: shared names; Dict is a JavaScript `Map`, Outcomes the results of code that throws.
-- - Domain: packages/domain/src/index.ts. A `Date` is a number of milliseconds; `null` and an
--   absent field are `none`.
-- - Protocol/Checks: the checks result and `summarizeChecksFailure` of
--   packages/shared-contracts/src/protocol/events.ts.
-- - Session/Machine: apps/api/src/sessions/session-state-machine.ts; the lifecycle diagram is the
--   relation of Machine/Diagram, its traces are in Machine/Traces.
-- - Session/Events, Events/Store, Events/Apply: apps/api/src/sessions/session-events.service.ts as
--   a transaction over the interface `Repositories`, which stands for the tables behind
--   apps/api/src/persistence.
-- - Session/Start, Start/Create: apps/api/src/sessions/session-start-policy.ts, and
--   `createSession` of apps/api/src/sessions/sessions.service.ts.
-- - Session/Close: apps/api/src/sessions/session-close.service.ts.
-- - Session/Prompts: apps/api/src/sessions/session-prompt.service.ts, with a record of its calls
--   that have returned; Session/Attachments: `remove` of
--   apps/api/src/attachments/session-attachments.service.ts.
-- - Session/Parse: `parseSessionAgentEvent` of apps/api/src/sessions/sessions.service.ts.
-- - Agents/Registry, Agents/Binding, Agents/Capabilities: connected-agents.registry.ts,
--   agent-project-binding.service.ts and agent-execution-capabilities.service.ts of
--   apps/api/src/agent-gateway; Agents/Delivery: agent-command-router.service.ts and the delivery of
--   commands by agent.gateway.ts there; Agents/Authentication: the configured credentials of agents and
--   `authenticate`, of agent-authentication.service.ts; Agents/Gateway: the authorization of an event
--   by agent.gateway.ts and agent-authentication.service.ts, and Gateway/Messages the handling of it.
-- - Prompt/Runner, Prompt/Effects: packages/local-agent/src/session/prompt-runner.ts over the
--   interface `Dependencies`, whose calls may answer or throw anything; Prompt/Api is the side of
--   the API. Prompt/Triples has the program logic, Prompt/Protocol, Prompt/Bounds and
--   Prompt/Restart the theorems.
-- - Review/Policy: apps/api/src/validation/validation.policy.ts; Review/Create:
--   apps/api/src/review-requests/create-review-request.use-case.ts, with a record of its calls
--   that have returned.
-- - Workspaces: packages/local-agent/src/session/session-registry.ts; Workspaces/Machine adds its
--   lock and the store, with a save as a step of its own; Workspaces/Store is what
--   packages/local-agent/src/session/file-session-workspace.store.ts writes of a workspace.
-- - Runner: packages/local-agent/src/session/session-runner.ts. Runner/Ports is the interface of what
--   the class is given; Runner (the calls), Runner/Cleanup, Runner/Prepare and Runner/Recovery are its
--   operations over the registry of Workspaces and over two lists of what runs, which the ports do not
--   see. Runner/Accounts has the invariant; Runner/Owned and Runner/Started follow the one session that
--   an operation works on.
-- - Runner/Healthcheck: packages/local-agent/src/docker/healthcheck.service.ts.
-- - Client: packages/local-agent/src/websocket/agent-client.ts, the handling of commands and their
--   acknowledgement, over the runner.
-- - Onboarding: apps/api/src/agent-onboarding/agent-onboarding.service.ts with the queries of
--   apps/api/src/persistence/adapters/agent-enrollment.repository.ts; Onboarding/Limiter is
--   agent-pairing-limiter.ts.
-- - Validation: packages/local-agent/src/checks/checks-runner.ts, over ports for the commands and the
--   preview.
-- - Web: apps/web/src/lib/session-validation.ts, which tells the user why a review request is not
--   offered, on the session that apps/api/src/sessions/sessions.service.ts answers.
-- - Webhooks: apps/api/src/github-webhooks, and `updateStatus` of
--   apps/api/src/persistence/adapters/review-requests.repository.ts.
-- Operations keep the names of the source in snake case. Asynchronous code is in its sequential
-- order; only the workspace registry is modelled with interleavings. The operations of the runner are
-- queued by the lock of a session, so that each is one action.
--
-- Bounds: the loop of repairs runs by the attempts that are left, at most two as in the source, so
-- no fuel is needed; the wait for a preview takes fuel, for which as many rounds as its delays fit into
-- its timeout and two more are enough; every other loop is over a list.
--
-- Parameters: `useful_line` (which line of a log is useful, by regular expressions), `fold`
-- (trimming and lower-casing), the wording of the repair prompt, the clock, random identifiers,
-- `Repositories`, `Dependencies`, `Network`, `RunnerPorts`, `ClientPorts`, `PromptPorts`, `ReviewPorts`, and `Calls`
-- of Validation, with the compaction of its logs. Theorems hold for every value of them.
--
-- Not modelled: HTTP, sockets, cookies, OAuth, Prisma, Docker, git and other processes, logging and
-- the rest of the user interfaces; the JSON of the credentials, the readiness of projects, the
-- upload of attachments, and the reading of the file of workspaces, which succeeds or not.
pub mod Prelude
pub mod Domain
pub mod Protocol
pub mod Session
pub mod Agents
pub mod Prompt
pub mod Workspaces
pub mod Review
pub mod Runner
pub mod Client
pub mod Validation
pub mod Web
pub mod Webhooks
pub mod Onboarding
