-- ===== src/Lib.antt =====
-- The project service of LFX: an HTTP API over projects, their settings, and the folders, links and
-- documents of a project, which are kept in NATS JetStream buckets.
--
-- The parts, and the files that model them:
--   internal/domain (errors.go, repository.go, message.go, user.go, models) is Domain: the errors in
--     Domain/Error, the records in Domain/Model, the indexing configurations, envelopes and events of
--     pkg/events/project.go in Domain/Message, and the repository interfaces, as records of functions
--     on a world, in Domain/Repository.
--   internal/infrastructure/nats/repository.go is Nats. Its methods on projects are in Nats/Projects,
--     those on links, folders and documents in Nats/Links, Nats/Folders and Nats/Documents; the struct
--     and the world its methods act on are in Nats/Repository, and Nats/Implementation fills the four
--     interfaces with it. A method `GetProjectBase` is the function `get_project_base`: a method that
--     only reads is a function of the world into a Result, a method that writes is an Exec, which
--     takes the world to a result and the next world.
--   internal/service is Service. project_operations.go is Service/Projects (a file per operation) and
--     Service/Enrich, folder_operations.go, link_operations.go and document_operations.go are
--     Service/Folders, Service/Links and Service/Documents, converters.go is Service/Pointers,
--     Service/Users and Service/Converters, and project_service.go is Service/Core. The payloads of
--     api/project/v1/gen/project_service/service.go are in Service/Api. Service/Wiring connects the
--     service to the repository as cmd/project-api/main.go does. Service/Handlers has the replies of
--     project_handlers.go. The handlers of events are Service/Subscribers: project_subscriber.go is
--     its Roles, Diff (the change of every user's roles), Settings (emails and invites) and Invites
--     (accepted invites), and document_subscriber.go is its Content; the package email is
--     Service/Email. Service/Trace is a service that records its calls, for the theorems on what is
--     sent and how often.
--   internal/infrastructure/nats/message.go and user_reader.go are Nats/Messages and Nats/Users.
--   cmd/project-api/service_endpoint*.go is Http: the errors of the API in Http/Errors, the endpoints of
--     projects in Http/Projects and the others in Http/Contents with their payloads in Http/Payloads,
--     and the body of a download in Http/Download, with the name for old clients in Http/Fallback. Http/Codes
--     has the statuses that the design of the API declares, and Http/Raised the rules by which
--     Http/Refusals goes through the operations.
--     Http/Multipart decodes the form of an upload (http.go). Http/Authentication has ParsePrincipal of
--     internal/infrastructure/auth/jwt.go and the middlewares that set values of a request's context.
--   cmd/project-cli is Cli: commands/sync/rename_project_slug_runner.go is Cli/Records (one record of a
--     bucket), Cli/Buckets, Cli/Search (OpenSearch) and Cli/Run, which also resolves the arguments as
--     rename_project_slug.go does; Cli/Env is pkg/env/env.go.
--   scripts/admin-delete-project/main.go is Scripts/AdminDelete: the reads in its Audit, the writes in its
--     Execute, and the whole in its Run. It uses the buckets of the repository and the message builder.
--
-- Prelude holds the text functions of the standard library that the code calls, association lists
-- for Go maps, and list lemmas; Exec is the monad of the operations: state and error together, where
-- an error keeps the world that the failed call has left behind. Examples has the concrete data.
--
-- What stands outside the repository is a parameter. A JetStream bucket is a record of operations on
-- an abstract state (Nats/Kv), and what the code relies on is the record KeyValueLaws (Nats/Laws):
-- a read tells the stored entry, a create succeeds on a free key only, an update against another
-- revision than the stored one is refused, and so is a delete, but at revision 0, which sets no
-- condition; no operation touches another key, and a failure leaves open whether the write has
-- happened. Nats/Memory is a bucket in memory that meets the laws.
-- An error of the client is known by the three tests that the code makes on it. SHA-256, the clock,
-- the layouts of package time, lower case, UUIDs, content sniffing, URL parsing and the constants of
-- lfx-v2-fga-sync are parameters (Service/Runtime), and so are url.QueryEscape and url.PathEscape, the
-- access levels of the invite service and what the email templates print (Outside and Templates), JSON
-- and the connection of the message builder (MessageCodec, NatsConn), and JSON and the requests of the
-- lookups in the auth service (AuthReplies). The operations take the message builder and the lookups
-- as records of functions, which Nats/Messages and Nats/Users fill. A message that a handler receives
-- is the decoded event or the error of decoding it.
--
-- The records that the renaming tool reads are JSON objects with raw values (RawJson), and what other
-- clients do to a bucket meanwhile is an environment (Environment in Cli/Records), which acts between a
-- read and a write, and while the tool sleeps.
--
-- A request runs alone: the operations are not interleaved with each other. The goroutines of a
-- group run in the order in which they are started, and a send that nobody waits for runs where it is
-- started. The clock is read once and one UUID is drawn in a request. A Go map is an association
-- list, so the order of a range over it is one of those Go may take. A nil slice is the empty list.
-- Logging and contexts are left out. A revision is a natural number; a header is parsed with
-- the bound of 64 bits, and printing a revision uses fuel for 20 digits, which every 64-bit number
-- fits in.
--
-- Retries of a promotion and of a renaming are recursions on the attempts left, three in all as in the code; reading
-- a download until its end has fuel for one call of Read more than the file has bytes, which is enough
-- since a call hands out a byte or reports the end.
--
-- Not modelled: the connection to NATS with its tracing (client.go, tracing.go), the set-up of the token
-- validator, the middlewares that log and that limit a body, logging, the client of OpenSearch and the
-- script that runs there, the generated HTTP server and client, which encode and decode requests,
-- start-up, flags and the dispatch of subcommands, and the scripts but admin-delete-project.
pub mod Prelude
pub mod Exec
pub mod Domain
pub mod Nats
pub mod Service
pub mod Http
pub mod Cli
pub mod Scripts
mod Examples
