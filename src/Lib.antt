-- ===== src/Lib.antt =====
-- RelayDock runs commands on a user's machines from a browser. A device agent keeps one WebSocket
-- to the server, viewers keep others, and the server stores jobs and their output in a database.
-- Several instances of the server may share one Redis, for the presence of agents and for a channel
-- on which they relay envelopes to one another. The modules here model the parts of the server that
-- carry that logic and prove what they promise.
--
-- The parts and their files:
--
-- - Lifecycle: packages/shared/src/index.ts (`canTransitionJob`, `isTerminalJobStatus`), the states
--   of a job and the changes between them. Lifecycle/Graph reads the table as a graph.
-- - Protocol: packages/protocol/src/index.ts, the messages between agent, server and viewer.
-- - Errors: apps/server/src/lib/errors.ts, `AppError` as a value.
-- - Viewers: the clients of `ConnectionHub` in apps/server/src/services/connections.ts
--   (`attachClient`, `beginSubscription`, `finishSubscription`, `broadcastJobLocally` and so on).
-- - Hub: its agents. Hub.antt has the pieces of `attachAgent`, `detachAgent`, `heartbeat`,
--   `sendToAgent` and the presence scripts; Hub/Fleet interleaves the calls of all instances of a
--   distributed hub; Hub/Relay is `handleRelayMessage` and the calls that publish envelopes;
--   Hub/Routing is `sendToAgent`, `isAgentOnline` and `closeDevice`; Hub/Shutdown is
--   `performShutdown`.
-- - Validation: `RepositoryValidationBroker` of the same file.
-- - Jobs: `JobService` of apps/server/src/services/jobs.ts. Jobs/Transition is the status of a job,
--   Jobs/Output stored output and its retention (with `chunkIdsToRemove` of
--   apps/server/src/lib/domain.ts), Jobs/Live the buffers of live output, Jobs/Replay the replay.
-- - Gateway: the sockets in apps/server/src/routes/websockets.ts. Of an agent's, Gateway/Agent is
--   `processMessage` and Gateway/Closing the handler of `close`; Gateway/Acts has what they do besides
--   their writes to the table of jobs, and Gateway/Queries the queries over several jobs. Of a
--   viewer's, Gateway/Viewing is `job.subscribe`.
-- - Tables: what the code relies on of Prisma's calls on a table with a unique column: `RowTable` has
--   the operations and their laws, and `listed_rows` is an instance. Its children count, search,
--   update and delete rows.
-- - Push: apps/server/src/services/push.ts; Push/Subscriptions is apps/server/src/routes/push.ts.
-- - Sessions: apps/server/src/services/sessions.ts, with `constantTimeEqual` of
--   apps/server/src/lib/crypto.ts.
-- - Pairing: pairing codes, from `createPairingCode` (apps/server/src/lib/crypto.ts) and
--   `normalizePairingCode` (apps/server/src/lib/domain.ts) to their rows in
--   apps/server/src/routes/devices.ts.
-- - Devices: the rows of devices and credentials and `authenticateAgent` of
--   apps/server/src/routes/websockets.ts. Of apps/server/src/routes/devices.ts, Devices/Pairing is
--   the pairing of a device, Devices/Revocation renaming and revoking one, Devices/Deletion deleting
--   one.
-- - Repositories: apps/server/src/routes/repositories.ts, changing and deleting a repository, and
--   its creation in apps/server/src/routes/devices.ts.
-- - Launch: apps/server/src/routes/jobs.ts, the start of a job; Launch/WorkingDirectory is
--   `normalizeWorkingDirectory` of apps/server/src/lib/domain.ts.
-- - Maintenance: apps/server/src/services/maintenance.ts.
-- - Browser: `useJobSocket` of apps/web/src/hooks/useJobSocket.ts, the viewer's end of the stream.
-- - Prelude has the shared helpers, and Examples the concrete inputs.
--
-- How they interact: an agent's message reaches `JobService`, which changes the database and hands
-- messages to `ConnectionHub`; the hub sends to its own sockets and relays to other instances, which
-- do the same; the broker waits for results that the hub relays. What a part sends is a list in the
-- result of its functions. Where a property depends on an `await`, the method is cut there: Hub/Fleet
-- and Validation interleave the pieces in any order, and Jobs/Transition has the two halves of a
-- transition. In the other modules of the hub and of the
-- job service a call runs as one, but for the wait in `performShutdown`.
--
-- Identifiers and times are natural numbers, since the program only compares them; cursors and exit
-- codes are integers. Sockets are numbers; their ready state and backlog are arguments. The
-- database is a parameter: Jobs/Table, Jobs/Output/Store and Gateway/Queries have its operations
-- and the laws that the service relies on (what a query returns after a write), and `listed_jobs`,
-- `listed_output` and `listed_queries` are instances; the other parts take a `RowTable` for each
-- table. A transaction is one step, and the calls of the database outside of one interleave where a
-- property depends on it: `meanwhile` is what other requests do during a wait. SHA-256, the upper
-- case of letters outside ASCII, the test for an absolute path of a repository, the answers of push
-- services, of the broker and of `sendToAgent`, whether stored JSON can be parsed, random bytes and
-- the clock are parameters. Redis is its scripts, with commands and replies that may be lost and
-- keys that may expire at any time. The eviction loop of `persistChunks` takes fuel; one more than
-- the rows and the new chunks of the job together is enough, since each round deletes a row. Every
-- other function is total by its structure.
--
-- Not modelled: connecting to Redis and reading envelopes from JSON, zod's bounds on message
-- fields, the listeners that `performShutdown` clears, time stamps of output chunks, attributes of
-- cookies, audit entries, rate limits, and delays of timers (a timer is an event that may come at
-- any time while it is set). Of the HTTP routes, the lists, the actions of repositories and the
-- sign-in with Google are left out; so are the other messages of a viewer's socket, the pages of
-- the web client and the Go agent.
pub mod Prelude
pub mod Lifecycle
pub mod Protocol
pub mod Errors
pub mod Viewers
pub mod Validation
pub mod Hub
pub mod Jobs
pub mod Gateway
pub mod Browser
pub mod Tables
pub mod Push
pub mod Sessions
pub mod Pairing
pub mod Devices
pub mod Maintenance
pub mod Repositories
pub mod Launch
pub mod Examples
