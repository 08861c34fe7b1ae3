-- ===== src/Lib.antt =====
-- Shaperail: a framework that serves REST resources from YAML definitions. These modules model the core
-- of its runtime, the path of a request from its parameters to the store and back, the background jobs
-- and sagas, and the checks of resource definitions and of a workspace of services.
--
-- Parts and files:
--   Core (shaperail-core/src): JSON values, `ShaperailError`, and the types of a resource definition.
--   Auth.Rbac (shaperail-runtime/src/auth/rbac.rs): `enforce`, `check_owner`, `needs_owner_check`.
--   Auth.Subject (auth/subject.rs): a caller's tenant and the queries that it is held to.
--   Auth.RateLimit (auth/rate_limit.rs): the sliding window; Redis' sorted set is a list of times.
--   Auth.Extractor (auth/extractor.rs, api_key.rs, the claims of jwt.rs): the user of a request.
--   Db (shaperail-runtime/src/db): filters, sort, search and pages, with their SQL, and base64.
--   Db.Query (db/query.rs): `ResourceQuery`. Read and Write build the text and the bindings of each statement
--     and run it; together they are a `Store` of the handlers. Create has CREATE TABLE for the engines.
--   Cache (cache/store.rs): the keys of cached responses and their invalidation.
--   Ws.Rooms (shaperail-runtime/src/ws/room.rs): the subscriptions of WebSocket sessions.
--   Ws.Session (ws/session.rs, shaperail-core/src/channel.rs): who may open a WebSocket, and a session as a
--     loop over the events that its `select!` takes, with the steps of other sessions in between.
--   Validator (shaperail-codegen/src/validator.rs): the checks of a resource definition.
--   Workspace (shaperail-codegen/src/workspace_parser.rs, shaperail-core/src/workspace.rs): the checks of a
--     workspace, the search for a circle of dependencies and the start order; Sagas.Check has the
--     checks of a saga from the same file.
--   Sagas (shaperail-runtime/src/sagas/executor.rs, shaperail-core/src/saga.rs): a saga's steps as requests,
--     and in Sagas.Executor `start`, `advance` and `compensate`.
--   Jobs (shaperail-runtime/src/jobs): queue.rs in Jobs, worker.rs in Jobs.Worker.
--   Storage (shaperail-runtime/src/storage/upload.rs, backend.rs): uploads and their limits, over a backend
--     that is a parameter.
--   Events (shaperail-runtime/src/events/emitter.rs): the jobs that an event is turned into.
--   Events.Webhooks (events/webhook.rs, events/inbound.rs): signed deliveries and the endpoint that takes them.
--   Handlers (shaperail-runtime/src/handlers): Validate and References (validate.rs), Params
--     (params.rs), Response (response.rs), Controller (controller.rs), and crud.rs as State, Tenant and
--     Crud. Crud.Base has the steps that the handlers share, Crud.Read list and get, Crud.Write
--     create, update and delete, Crud.Bulk the bulk handlers.
--
-- A handler is a function from a `World` (database, cache, limiter, metrics, effects sent) to a result
-- and the world after it: an error keeps what was changed before it, as in the source, which has no
-- transaction over a request. The database is a type parameter, read and written only by the
-- operations of a `Store` (db/store.rs) and by controllers, which are parameters. So are Redis' commands
-- on the response cache, each of which may fail or let an entry expire, the WASM runtime, relation
-- loading, the two queries of the reference check, SHA-256, the printing of JSON, the floating-point
-- comparisons and the UUID parser. A request holds the user that its credentials show, and its decoded
-- parameters, as Params.Query makes them. Maps are association lists; effects (events, jobs, file clean-up)
-- are recorded in their order. Log lines are left out. Time is a number of milliseconds.
--
-- Loops over lists are structural recursion; the printing of a number in decimal has as much fuel as the
-- number, and each round divides it by ten. The depth-first walks of a workspace have as much fuel as
-- it has names, since each call marks a new one, and the loop of `advance` one round more than the saga
-- has steps, since each round but the last moves on by one; both are proved to be enough.
--
-- Sagas and jobs have worlds of their own: the row of one execution and the requests sent; the lists
-- and hashes of Redis, the retries that wait, and the runs of handlers. Each use of the database or of
-- Redis may fail, by a list of faults to come. Spawned tasks are run by the caller of the model: a
-- compensation after `advance`, and a job's retry at any later moment. The replies of services, the
-- ends of handlers, reqwest's methods and the time are parameters.
--
-- sqlx is a `Pool`: the rows of a statement, or the number of a count. The parsers of UUIDs, times, dates and
-- floats, UTF-8, HMAC and the decoding of tokens are parameters too; a UUID, a timestamp and a date
-- are their canonical texts. A new UUID and the time are what the call for a placeholder gives.
--
-- Not modelled: the upload handlers and multipart forms, relation loading, the ORM for other engines,
-- the issuing of tokens, storage backends, plugins, GraphQL, gRPC, the code generators and the command line:
-- they are other front ends, input and output, or texts from templates.
pub mod Prelude
pub mod Core
pub mod Auth
pub mod Db
pub mod Cache
pub mod Handlers
pub mod Ws
pub mod Events
pub mod Jobs
pub mod Storage
pub mod Sagas
pub mod Validator
pub mod Workspace
