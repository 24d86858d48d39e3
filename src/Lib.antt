-- ===== src/Lib.antt =====
-- DeployOS: a control plane to which the agents of machines connect, and the agent. This library models the
-- logic of the Go code; paths are from the repository's root.
--
-- The parts and their files
-- - Applications, with Applications/Name, Status, Errors: internal/applications/application.go and status.go. A
--   record per struct; `validate` is Application.Validate, `new_application` NewApplication, `transition_to`
--   TransitionTo. The clock is an argument. Applications/Validity, Lifecycle and History hold the proofs; names are
--   matched by the regular expressions of Go/Regexp, with backtracking.
-- - Devices: internal/devices. Devices.antt has the domain types and RegisterInput.Validate; Devices/Service has
--   Register, List and IsOwner over the interface `Repository`, a record of functions on a state; Devices/Table is
--   the Postgres repository, the table `devices` as its rows by primary key, with the two SQL statements of
--   postgres.go; Devices/Token is token.go, the issuer and the verifier of device tokens; Devices/Handler has the
--   HTTP handlers. Devices/Table/Owner and Listing and Devices/Handler/Ownership hold the proofs.
-- - Agent/Identity: internal/agent/identity.go, the device id and the token on disk; Agent/Identity/Files says which
--   file a call changes. Agent/Registrar: internal/agent/registrar.go and Agent.registerWithControlPlane. Agent/Start:
--   Agent.Run up to its errgroup, and its health check; Agent/Start/Main: cmd/agent/main.go and sysinfo.go in front of
--   it. Agent/Routes: the agent's HTTP routes. Agent/Process: the errgroup of Agent.Run, with the connection's loop and
--   the HTTP server as steps in any order. Agent/Commands: the executors and the dispatcher of
--   internal/agent/handlers.go; Commands/Inspect has its command INSPECT_CONTAINER over the Docker client.
-- - Containers and Containers/Docker: internal/containers, the client of the Docker Engine.
-- - Auth: internal/auth, and the head that the HTTP handlers share.
-- - Connection/Manager: internal/connection/manager.go, the connections by device. Connection/Auth: the handshake
--   of internal/connection/server.go. Connection/Server: Connect and Send of that file, each handler a record with
--   its place in the code, each critical section one `step`, the handlers interleaved in any order. Connection/Client:
--   internal/connection/client.go, one connection attempt and the loop over attempts with its backoff;
--   Connection/Client/Session: the receive loop of an attempt with the goroutines of the command handler, as a step
--   relation, and Session/Answers its proofs. Connection/Client/Loop: Client.Run as steps, with a context that ends at
--   any time; Loop/Waits and Ends its proofs.
-- - CommandBus/Wire, Dispatcher, Service, Handler: internal/commandbus. Service has the calls of Send in progress,
--   each with its channel, and HandleResult, as events in any order. Handler is the HTTP handler: `plan` up to the
--   call of Service.Send, and `answer` from what it returned.
-- - Runtime: internal/runtime. HttpServer and GrpcServer have Run of each server as a step relation over the serving
--   goroutine, the channel errCh, the shutdown and the context; their
--   Rank, Invariant and Ends the proofs; Runtime/Channel what both say of errCh; Runtime/Group what an errgroup
--   keeps of their results.
-- - ControlPlane: cmd/server/main.go. Setup is its start; Routes its HTTP routes over the handlers, with Paths, Answers
--   and Logged the proofs; Rank, Invariant and Ends follow its two servers under the
--   errgroup, whose first error cancels the context that both are given.
-- - Monitoring: internal/monitoring/health.go. Logging: internal/logging, the levels and the middleware. Config:
--   internal/config/config.go, and validateConfig of cmd/server/main.go.
-- - Fleet: the agent and the control plane together. Fleet/Registration and its children take the agent's registration through the
--   handler of internal/devices/handler.go to the handshake of internal/connection/server.go; Fleet/Command a command
--   through the client and its dispatcher back to the caller; Fleet/Delivery a command from its HTTP request to the stream
--   of the device; Fleet/FirstMessage a stream on which a Send comes first; Fleet/Presence the list of devices over the
--   connections. Fleet/Network has all calls of Service.Send with all devices at once, over streams that may lose,
--   repeat and reorder messages, and with agents that may change; Network/Messages, Moves, Sound and Still have what
--   each step keeps, and Outcome, Replies, Owners and Once what follows. A message of a lost stream may still arrive there, so
--   that there are more runs than the program has: only what holds in every run is stated of them.
-- - Cli: cmd/cli, what each command writes.
-- - Proto: the messages of gen/go/deployos/v1 that the parts exchange. Types: pkg/types/types.go and
--   pkg/protocol/heartbeat.go.
-- - Go: what the code uses of Go's strings, maps, errors, regexp and net/http's multiplexer. Base: tests, lists and case splits.
-- - Examples: the theorems at concrete inputs, and tests.
--
-- How the parts interact. An HTTP request finds its user (Auth) and its device (Devices/Service), and the handler
-- of the Command Bus passes a command to Service.Send, which registers a pending request and hands an envelope to
-- Server.Send; the agent's Client hands it to the Dispatcher, and the result comes back through the Server's receive
-- loop into HandleResult. Agents authenticate on the connection with the token that the registration issued.
--
-- Conventions. A map is an association list with each key once (Go/Map), whose order is the order in which a
-- `range` happens to go. An error is a value of GoError; a declared error is known by its qualified name. A mutex
-- makes the code under it one step. Times and durations are natural numbers, of nanoseconds but for the seconds of
-- a token's claims; the rounding of the jitter's floating point, of at most a nanosecond, is left out. There is no
-- fuel: the loops go over a list of what the network does, or are step relations; what ends is bounded by a
-- measure that each step lowers, and the loop of Client.Run and the network go on for as long as they like.
--
-- Parameters, for code that is not in the repository: uuid.Parse, the clients and servers of HTTP and gRPC, JSON, the
-- JWT library, the libraries that read settings, the file system's failures and those of the database.
--
-- Not modelled: the loggers' output but for the middleware's record, the generated code but for its messages and getters,
-- and the dashboard. The packages scheduler, discovery and secrets hold no behaviour, and the interfaces of
-- internal/applications no code. A path of a request is clean, as net/http redirects others. A signal is a step; os.Exit
-- and the wiring of the parts by their constructors are not steps.
pub mod Base
pub mod Go
pub mod Types
pub mod Proto
pub mod Applications
pub mod Connection
pub mod CommandBus
pub mod Containers
pub mod Auth
pub mod Runtime
pub mod ControlPlane
pub mod Cli
pub mod Config
pub mod Logging
pub mod Monitoring
pub mod Agent
pub mod Devices
pub mod Fleet
mod Examples
