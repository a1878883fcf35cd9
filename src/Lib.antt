-- ===== src/Lib.antt =====
-- AgentV is the host agent of AcornOps: a process on a machine that holds one WebSocket session to the
-- control plane, answers tool calls over it, sends snapshots of the host, and asks a root-owned helper
-- to restart a service. This library models its core as functions and step relations and proves what
-- keeps them safe. Paths are those of the repository, whose program is under src/.
--
-- The parts and their files:
-- - Transport: src/transport/websocket-client.ts. `WebSocketClient` owns the socket, its timers and
--   the reconnects. `Transport.step` has an event for each call and callback, and one for what the
--   library ws does to the ready state and the buffer. A `connect` may throw, and a frame is buffered
--   with the header of RFC 6455.
-- - Lifecycle: src/core/lifecycle.ts. `LifecycleManager` runs on the transport: the handshake, the
--   policy of the session (Lifecycle/Handshake), readiness, the heartbeat. Its record holds the
--   transport's, so that each forced reconnect runs through both.
-- - Executor: src/tools/executor.ts. The gates and the queue budget (Executor/Gate), the checks before
--   them (Executor/Authorize) and the run of a tool. `Executor.step` is cut at the awaits of `execute`,
--   and any order of the callbacks is a list of events.
-- - Registry, Errors and Metrics: src/tools/registry.ts, src/tools/errors.ts, src/observability.ts.
-- - Snapshot: src/core/snapshot-manager.ts. What a snapshot holds (Snapshot/Build), the loop that fits
--   it to the budget (Snapshot/Shrink), and the schedule of the collections.
-- - Actions: src/actions. The helper's policy and requests (Actions/Policy, Actions/Unit), the
--   framing of its socket (Actions/Connection), its requests in flight (Actions/Helper), the ledger
--   (Actions/Ledger), the client's exchange with it (Actions/Client) and the mock (Actions/Mock).
-- - McpRouter: src/mcp/router.ts and src/mcp/protocol.ts. Which requests reach a tool, what is
--   answered when the executor has returned or thrown, and when nothing is; validateModelContext of
--   src/tools/model-context.ts stands with it. McpRouter/Retry joins it with the executor.
-- - Tools: src/tools/index.ts. The catalog and its registration (Tools/Catalog), and the input and the
--   handler of restart_service (Tools/Restart).
-- - ModelContext: src/tools/model-context.ts, `boundedProjection`. Redaction: src/redaction.ts.
-- - Adapters: src/adapters. The commands that the host may run (Adapters/Command), processes from
--   procfs (Adapters/Procfs, Adapters/Procfs/Listing), sockets, filesystems, the facts and the usage
--   of the host (Adapters/HostFacts), systemd's services and the journal, each in the file of its name.
-- - Windows: src/windows. A collector process and the runner of all (Windows/Runner,
--   Windows/Runner/Calls); what live.ts, log-input.ts and service-health.ts make of the rows that
--   collectors print (Windows/Live, Windows/Live/Services, Windows/Live/Logs); the snapshots
--   (Windows/Snapshot) and their schedule (Windows/Snapshot/Manager), src/windows/snapshot.ts. The
--   service of src/windows-service-entry.ts: its control protocol (Windows/Service), its protected
--   settings up to the check of src/windows-runtime.ts (Windows/Service/Settings), the environment, in
--   which the names of variables are compared in upper case (Windows/Service/Variables), and the
--   evidence of a session, src/windows-readiness.ts (Windows/Readiness).
-- - Config: src/config.ts. The parsers of the environment and `loadConfig`.
-- - Doctor: src/doctor.ts, the checks of the readiness.
-- - Base: the shared types and lemmas. Examples: concrete runs.
--
-- How the code is rendered: an `async` function is a state machine whose events are the results of
-- its awaits; an exception is a value of a result type; a `Map` or a `Set` is a list or a function;
-- a number is a natural number where the code has no other. A text is a list of characters of the
-- basic plane, so that a character is one UTF-16 unit. A draw of `Math.random` is a number below
-- 2^53 over 2^53. Where the code divides, a percentage is a number of hundredths and a time a number
-- of milliseconds, exact where the code has doubles; a `Number` of a text is `none` unless the text
-- is written in digits. The helper reads its ledger and goes on in one event, since the ledger is
-- its own state: a read that spans a whole restart of the same operation id is not modelled. A `put`
-- that fails may or may not have renamed its file.
--
-- Fuel: each `shrink` takes as many rounds as the snapshot has optional rows, which is enough since
-- each round drops one. The processes are read in batches with one unit for each of them, and a
-- batch takes at least one. `Decimal.show` has the successor of the number. The service reads its
-- buffer with one unit more than it has bytes, and each round takes a newline. `compact_value`
-- recurs on 6 less the depth. Everything else recurs on its data.
--
-- Parameters of the models are what the code calls and this repository does not hold: `JSON.parse`,
-- the length of a JSON text, SHA-256, the schemas of zod, gzip, `Number`, `new URL`, the clock, and
-- what `execFile` and the reads of files return. `redactString` is one too, since its regular
-- expressions are not modelled; so are `toLowerCase`, `localeCompare` and `toISOString`.
--
-- Not modelled: the call of a tool's `scopeResolver` before the gate of the executor, which decides
-- nothing; the mark `<circular>` that redactValue leaves for an object met again, since a value here is
-- a tree; the tools of Windows and the command line of its service; the events that the runner
-- hands to an observer; the check of the trusted executables; the choice of adapters and their
-- mocks; the canonical text that the ledger hashes; the logger and the entry points, which are input
-- and output.
pub mod Base
pub mod Errors
pub mod Metrics
pub mod Registry
pub mod Redaction
pub mod ModelContext
pub mod Executor
pub mod Actions
pub mod Tools
pub mod Adapters
pub mod Config
pub mod Doctor
pub mod Transport
pub mod Lifecycle
pub mod Snapshot
pub mod McpRouter
pub mod Windows
pub mod Examples
