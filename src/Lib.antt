-- ===== src/Lib.antt =====
-- Hermes and Forge move delegated work from a human-facing control plane to a local executor
-- without losing state, status or proof. Hermes (hermes/) keeps envelopes in SQLite and drives
-- their status machine; its worker delivers created envelopes to Forge (forge/), which binds them
-- to executor sessions and reports status back.
--
-- Which file models which part, and how its definitions correspond to the code:
--   Envelope        hermes/envelope/envelope.go: the records with their Go fields in snake case,
--                   `is_terminal`, `known`, `validate`, `can_transition` for the methods.
--   EnvelopeStore   hermes/internal/envelopestore/sqlite.go: Insert, Get, NextCreated, List,
--                   MarkDelivered, SetExecutorSessionID in the file itself, UpdateStatus and
--                   AddHistory in Update, AppendMessage and GetThread in Thread, the two
--                   active-session queries in Active. Columns has the columns of a row, with
--                   marshalCols, unmarshalInto and the scan.
--   Worker          hermes/internal/worker/worker.go and multitarget.go: TickOnce, drainOnce, the
--                   backoff, the routing client and what Deliver makes of a response.
--   ActivityHub     hermes/internal/activityhub/hub.go: the ring, Publish, Recent, subscriptions.
--   NotifyStore     hermes/internal/notifystore/store.go: the notification queue, single and bulk
--                   acknowledgement, loop counting and purging.
--   SessionStore    hermes/internal/sessionstore/store.go: session lanes, numbered messages, retries.
--   KeyStore        hermes/internal/keystore/store.go: API keys, their creation, look-up and deletion.
--   AgentStore      hermes/internal/agentstore/store.go: the agents that reporters last saw.
--   ProjectStore    hermes/internal/projectstore/store.go: the registry of projects.
--   Api             hermes/internal/httpapi: one module per handler file, each with its requests, its
--                   responses and one `handle` that runs the handler of a request. Api.Auth is the
--                   middleware of auth.go, Api.Keys key_handler.go, Api.Notifications
--                   notification_handler.go, Api.Envelopes with Alerts, StatusList and Uuid
--                   envelope_handler.go, Api.Webhook webhook.go, Api.Sessions session_handler.go,
--                   Api.Registry registry_handler.go, Api.Agents agent_handler.go, Api.Activity
--                   activity_handler.go.
--   Forge           forge/internal/sessionstore/sqlite.go and forge/internal/httpapi/registry.go: the
--                   session register and the running processes; Forge.Deliver is POST /deliver of
--                   forge/internal/httpapi/deliver.go, and Forge.Resume is POST
--                   /sessions/{envelope_id}/resume of forge/internal/httpapi/resume_handler.go. Forge.Io
--                   is session_handler.go, Forge.Notify notify_handler.go, Forge.Links
--                   agent_link_handler.go, Forge.Runner forge/internal/runner/runner.go, Forge.Command
--                   and Forge.Report are forge/internal/agentreport/reporter.go.
--   Relay           hermes/cmd/hermes-notify/router.go: the relay of notifications to Telegram.
--   Sql             what the SQL text of the stores says: WHERE, ORDER BY, UPDATE as list functions.
--   Prelude         shared names, tests, results, list, text and byte-string functions and lemmas.
--
-- How the parts interact: the worker uses the store through the interface `Worker.Store`, which
-- `Worker.Sqlite` fills with the envelope store's operations, and Forge through `Worker.ForgeClient`.
-- Forge's handlers use the launcher and the processes through `Forge.Deliver.Os`, and OpenCode through
-- `Forge.Resume.OpenCode`. The stores share no table. A handler of `Api` calls the store's own
-- operations; where a theorem is about the middleware too, `serve` puts `auth_middleware` in front of
-- `handle`, as `NewServer` does for every route. A status change calls the envelope store, and then the
-- notification store, the webhooks and the activity hub (`Api.Alerts`); the project listing joins the
-- projects with the envelope store's active sessions.
--
-- Conventions. A table is the list of its rows in insertion order. A `Call` says which driver calls
-- of one operation fail, so every error path of the Go code is a branch; a transaction that does
-- not commit leaves the old table. The SQL engine itself and the network are not modelled: a peer is a
-- function argument. A table of envelopes holds them as a scan reads them, so that a JSON column is the
-- value it encodes; what is between an envelope and the columns of its row is in EnvelopeStore.Columns,
-- with the JSON codec as a parameter. A time is its instant in nanoseconds. An envelope's created_at,
-- which a client may send with any offset, has beside it the text that the driver writes, and is ordered
-- by that text, as SQLite does; the other stored times are the server's own, and are compared by
-- instant. Outside Columns a nil and an empty slice or map are the same empty list. Error values keep the sentinel that `errors.Is` tests and drop the text, and
-- an HTTP response its status with the kind of the error or the value written. A request is what the
-- router, the query and the JSON decoder give; random bytes are an argument, `none` where reading them
-- fails. A goroutine that sends to a webhook is an entry in a list of jobs. `path.Clean` is a definition,
-- since the middleware depends on what it does; `filepath.Clean` and the verb %q are parameters.
--
-- Bounds and fuel: `Worker.drain_once` takes fuel, and one more than the number of created rows is
-- enough, because each round that goes on removes one. `Bulk.chunks_from` takes the number of ids,
-- since each chunk takes at least one, `Prelude.Texts.decimal` one more than the number,
-- `Api.Agents.itoa_loop` the number itself, since a number is at most as many digits long as it is
-- large, and the retries of a message insert are the five of the source. The ring of the activity
-- hub has 1024 slots, a subscriber's channel 64. Go's integers are natural numbers where the code
-- keeps them above zero; no theorem depends on a wrap-around at 64 bits.
--
-- Not modelled: opening, closing and migrating databases, logging, goroutines and timers, the network
-- sends of the webhooks, the stream of GET /events after it has subscribed, the health check, the
-- dashboard, the icons and the container logs, the command-line programs, the MCP server, the relay's
-- calls of Telegram and of a language model, the pipes and signals of Forge's processes, and the commands
-- ps and lsof of its reports. They are input and output around the parts above, or have no state of
-- their own.
pub mod Prelude
pub mod Sql
pub mod Envelope
pub mod EnvelopeStore
pub mod ActivityHub
pub mod AgentStore
pub mod Api
pub mod Forge
pub mod KeyStore
pub mod NotifyStore
pub mod ProjectStore
pub mod Relay
pub mod SessionStore
pub mod Worker
