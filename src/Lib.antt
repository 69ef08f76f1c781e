-- ===== src/Lib.antt =====
-- A model of the core of vyx, the gateway that runs workers as processes and passes HTTP requests
-- to them, written in Go under core/, and of the scanner of annotations under scanner/ that makes
-- its route map.
--
-- The parts. A request enters at the HTTP gateway (Server), which looks at its method, its media
-- type and its size, finds its client's address (ClientIp), counts it against the limits
-- (RateLimiter) and hands it to the dispatcher (Dispatcher), or to a WebSocket session (WebSocket);
-- Cors stands in front of both, and Tokens and Schemas judge tokens and bodies for them. The
-- dispatcher finds the route (Route), asks the breaker of the route (Circuit) and the drainer
-- (Drainer) whether it may pass, and looks at its token and its body; a pool (Pool, Manager)
-- selects one of the replicas of a worker (Worker). Frames (Framing) carry requests, responses and
-- heartbeats between the core and a worker, and large payloads go in chunks (Stream). One loop for
-- each worker, owned by the receiver (Receiver), reads its heartbeats (Heartbeat) and reports to
-- the lifecycle service (Lifecycle), which keeps the workers in a repository, and the monitor
-- (Monitor) restarts those that are overdue. The transport (Transport) sorts what a worker writes
-- to its socket, a pool of connections (SocketPool) lends them out, pings are sent by Sender, and a
-- worker registers by Handshake. Processes are started and stopped by Process, with runtimes that
-- Runtime chooses. Logs keeps log entries for display. SocketPool, Stream, Selector, SharedMemory
-- and Redact model code that nothing else in the core calls yet. The manifest (Config), read by
-- Loader, configures all of them; Scanner writes the route map from the annotations in the sources
-- of the workers.
--
-- The files, each with its source:
--   Base             what the others share: tests on numbers, lists, texts, maps, integers
--   Circuit          core/domain/circuit/breaker.go; its registry in Circuit/Registry, theorems in
--                    Circuit/Invariant, Circuit/Cooldown and Circuit/Probes
--   Worker           core/domain/worker: worker.go, event.go, errors.go
--   Pool             core/domain/pool/pool.go; Pool/Members, Pool/Selection
--   Manager          core/domain/pool/manager.go; Manager/Names, Manager/Prefix, Manager/Sizes
--   Route            core/domain/gateway/route.go; Route/Trie, Route/Matching, Route/Split
--   Framing          core/infrastructure/ipc/framing/framing.go, core/domain/ipc/message.go and
--                    errors.go; Framing/Roundtrip
--   Drainer          core/application/lifecycle/drainer.go
--   Lifecycle        core/application/lifecycle/service.go and
--                    core/infrastructure/repository/memory_worker_repository.go;
--                    Lifecycle/Spawning for the spawning of workers; Lifecycle/Workers,
--                    Lifecycle/Restarting,
--                    Lifecycle/Stopping, Lifecycle/Spawned
--   RateLimiter      core/application/gateway/ratelimiter.go; RateLimiter/Windows
--   Monitor          core/application/monitor/monitor.go; Monitor/Backoff
--   Heartbeat        core/application/heartbeat/loop.go; Heartbeat/Misses
--   Receiver         core/application/heartbeat/receiver.go; Receiver/Reconcile, Receiver/Cancelling
--   Stream           core/infrastructure/ipc/codec/stream.go; Stream/Assembly
--   Config           core/domain/config/config.go; Config/Validity
--   ClientIp         core/application/gateway/clientip.go; ClientIp/Trust
--   Dispatcher       core/application/gateway/dispatcher.go, with the listeners of proxylistener.go and
--                    the hooks of lifecycle.go beside it; Dispatcher/Sending for the exchange with
--                    a worker, Dispatcher/Guarded, Dispatcher/Balance, Dispatcher/Probing
--   SocketPool       core/infrastructure/ipc/uds/pool.go; SocketPool/Callers for its callers in any
--                    order, SocketPool/Warming, SocketPool/Counts
--   Transport        core/infrastructure/ipc/uds/listener.go; Transport/Pumping, Transport/Ordering
--   Server           core/infrastructure/gateway/server.go; Server/Replies for responses, errors and
--                    the whole handler, with core/application/gateway/security_headers.go;
--                    Server/Sanitizing, Server/Admission, Server/Errors
--   WebSocket        core/infrastructure/gateway/websocket.go; WebSocket/Session
--   Cors             core/infrastructure/gateway/cors.go; Cors/Origins
--   Tokens           core/infrastructure/gateway/jwt.go
--   Schemas          core/infrastructure/gateway/schema.go
--   Selector         core/infrastructure/ipc/codec/selector.go
--   Sender           core/application/heartbeat/sender.go
--   Handshake        core/application/handshake/handler.go
--   Process          core/infrastructure/process: manager.go and manager_unix.go; Process/Lines,
--                    Process/Stopping
--   Redact           core/infrastructure/log/redact.go; Redact/Masks, Redact/Masking
--   Scanner          scanner/types.go, validator.go and generator.go; Scanner/Parsing for the parsers
--                    of Go, TypeScript and Python, Scanner/Pages for tsx_parser.go;
--                    Scanner/Validity, Scanner/Pending
--   Loader           core/infrastructure/config: loader.go and loader_exported.go
--   Runtime          core/infrastructure/runtime/runtime.go; Runtime/Decisions
--   Logs             core/infrastructure/log/multiplexer.go and core/domain/log: entry.go, source.go;
--                    Logs/Filters for the filters and the sources, Logs/Ring, Logs/Latest
--   SharedMemory     core/infrastructure/ipc/shm/shm.go; SharedMemory/Closing
--   Examples         concrete inputs for the theorems
--
-- Names are those of the source in snake case; where a method of Go changes its receiver, the
-- function here returns the new record. A lock makes each method one step. Times are nanoseconds in
-- ℕ, with 0 for the zero time, and the clock, random numbers and what processes, transports, JSON
-- and the package net answer are arguments. A Go map is a list of pairs, whose order is one of the
-- orders in which Go may visit it. Strings are lists of bytes. Counters that only ever count up by
-- one are in ℕ, except for that of the round robin, whose 64 bits are kept; the length of a frame
-- is kept to its 32 bits.
--
-- Fuel: `itoa` divides at most n + 1 times, which is enough since a number has fewer digits than
-- its value and one, and `chunks` takes at least one byte in each of as many rounds as there are
-- bytes. The loop of Redact over one field has as many rounds as the line has bytes and one more,
-- and each that goes on moves behind a name, which is not empty. The pump of a connection and that
-- of a session stop when nothing is left to read or to take; their fuel is above the number of
-- messages. All other loops follow the list or the path that they walk.
--
-- Regular expressions, JSON, YAML, the JWT and schema libraries, net/http, the operating system and
-- the answers of dials and reads are arguments.
--
-- Not modelled: starting and stopping the HTTP listener, the frames of WebSocket, the dialling side
-- of the sockets and named pipes, the codecs for Arrow and MessagePack, downloads of runtimes, the
-- loggers, metrics, the commands, the terminal interface and the examples, which are input and
-- output or calls of libraries. Of the route map, the reading of its file.
pub mod Base
pub mod Circuit
pub mod Worker
pub mod Pool
pub mod Manager
pub mod Route
pub mod Framing
pub mod Drainer
pub mod Lifecycle
pub mod RateLimiter
pub mod Monitor
pub mod Heartbeat
pub mod Stream
pub mod Config
pub mod ClientIp
pub mod Dispatcher
pub mod Receiver
pub mod SocketPool
pub mod Transport
pub mod Server
pub mod WebSocket
pub mod Cors
pub mod Tokens
pub mod Schemas
pub mod Selector
pub mod Sender
pub mod Handshake
pub mod Process
pub mod Redact
pub mod Scanner
pub mod Loader
pub mod Runtime
pub mod Logs
pub mod SharedMemory
pub mod Examples
