-- ===== src/Lib.antt =====
-- EdgeCTL: a Mirage orchestrates intents over Ghosts, which run seeds on their hosts. Commands, events,
-- acknowledgements and reports travel between them as TLV payloads in frames.
--
-- Parts and files (paths from the repository's root):
-- - Prelude: bytes and text (with strings.TrimSpace on UTF-8), maps with one entry to a key, results,
--   big-endian words and decimal numerals.
-- - Tlv: internal/protocol/tlv/tlv.go. `encode_fields`, `decode_fields`, `get_field`, `must_type` and
--   `u32_from_bytes` are the functions of those names; `decode_loop` is the loop of DecodeFields.
-- - Frame: internal/protocol/frame/frame.go. `read_frame` takes the bytes that the reader will ever give
--   and returns the frame with the bytes that are left; `write_frame` returns the bytes that it writes.
-- - Schema: internal/protocol/schema/schema.go, with the table of required fields.
-- - Session: internal/protocol/session. Event and Ack are eventwire.go, Command and Report are
--   command_report_wire.go, Outbox is outbox.go. Session itself has what their encoders and decoders
--   share: `encode_message` validates and frames, `decode_message` parses and validates.
--   Control is control.go, the registration of a Ghost at a Mirage, Transport is
--   transport_security.go and Config the defaults of config.go, with durations as integers.
-- - Seeds: internal/seeds/types.go and registry.go. A seed acts on an abstract state of the host. Kv, Fs,
--   Flow and Mongod are the seeds of internal/seeds/kv, fs, flow and mongod; Fs/Paths has filepath.Clean, Join
--   and Abs on Unix, Kv/Refinement the store as a function from keys to values. Install is install.go: System
--   has what it asks of the host, Paths its isWithin, Methods and Brew the ways of installing.
-- - Ghost: internal/ghost. Envelopes has envelopes.go, command.go and execution.go; Server is server.go, where
--   each method holds the mutex and is one step; Pipeline is pipeline.go, HandleCommandAndExecute; Loop is
--   command_loop.go, which submits commands to the pipeline. Admin is admin_control.go: an admin command
--   through the pipeline, and Admin/Envelope the frame that it comes in. MirageClient is mirage_client.go:
--   connecting, registering and delivering events, with Attempts and Delivery on its two loops.
-- - Mirage: internal/mirage. Issue has the validation of issues and the planning of commands of
--   orchestration.go, Orchestrator the stores and the functions on them, Pass the operations that change them
--   and ReconcileOnce in the pieces between which the mutex is free, Ingest the events from outside a pass.
--   Server is server.go: the lifecycle and the registry of Ghosts, with Discovery for what is added to a
--   registration's seeds, Boundary for the methods on the orchestrator, the reports and the spawner, and
--   Steps for the step relation of all these operations. GhostClient is ghost_admin_client.go, the client
--   of a Ghost's admin endpoint; Remote joins it to Ghost/Admin. Handshake and Conn are service.go: the
--   identity of a peer and its registration, and the handling of a connection; Conn/Exchange joins it to
--   Ghost/MirageClient. Services is the rest of service.go that answers queries: the endpoints of Ghosts, their
--   probing, the routes and the index of services.
-- The orchestrator sends a Session.Command through a frame to an executor, for which a Ghost answers with
-- the event of its pipeline; the event comes back through a frame and a report is built from it.
--
-- Conventions: strings are lists of bytes. Words are natural numbers with their wrap-around written out;
-- theorems about encoded words state that they are in range. An int32 exit code is its bit pattern, and is
-- only compared with 0 and 127. Clocks are arguments. Errors are values without their texts, but for
-- those that seeds answer, and log calls are left out. `decode_loop` runs on fuel, the length of the payload; each round reads at least seven bytes.
-- The loops of a connection, of connecting and of a delivery count turns: for the first, the number of bytes
-- that came, since each frame takes some; for the second, the configured attempts; a delivery may
-- retry until its time limit, so that its turns are an argument.
--
-- Taken as interfaces or arguments: encoding/json on maps of strings (Session.Command.Json) and on control
-- envelopes (Session.Control.EnvelopeJson), of which the reading back of valid UTF-8 and the absence of
-- line ends are assumed; executors; the command runner of the mongod seed and the operating system's files
-- of the fs seed and the host of the installer, of which nothing is assumed; strconv.Quote,
-- strings.ToLower, and the splitting and joining of addresses of package net; the network of the clients
-- (dials, written and read bytes, waits and the clock) and the outcome of a TLS handshake, of which
-- nothing is assumed. The working directory is assumed to be an absolute path.
--
-- Not modelled: the start-up and the listeners of the services, the dispatch of the JSON control requests and the managed Ghosts (goroutines and files), the
-- lengths of the backoff (floats), the commands under cmd, logging and third_party.
-- The tables of operations that seeds describe themselves with are left out. filepath.Clean and Join of
-- package path/filepath are written out for Unix, since the containment of paths is about them.
-- IngestObservedEvent visits the intents in Go's random map order; the model takes the order of the map. A
-- nil executor cannot be written here.
pub mod Prelude
pub mod Tlv
pub mod Frame
pub mod Schema
pub mod Session
pub mod Seeds
pub mod Ghost
pub mod Mirage
