-- ===== src/Lib.antt =====
-- FiloJ: services that take in files of developers, scan them, and report by webhooks.
--
-- The parts and their modules:
-- * Shared (shared/src/shared): `Errors` has the exceptions as values, `World` the state outside of
--   a process, and `Broker` the class `BrokerClient` of broker.py, method by method. `Webhook` is
--   `dispatch_to_webhook` of webhook.py. `Models`, `Config` and `Redis.Keys` are models.py, config.py,
--   plan_limits.py and redis/cache_keys.py.
--   `Storage` is `S3StorageAdapter` of storage.py, which keeps which objects there are, `Rows` the
--   queries and commits of the workers, and `Message` what a worker gets.
-- * Gateway (gateway): a request comes in by `Proxy.gateway` (main.py, routers/proxy.py). The handlers
--   of `Handlers` (handlers/file.py, handlers/auth.py) find out who calls: by an API key, whose
--   requests `ApiKeyRepo` (cache/api_key_repo.py) counts in Redis, or by a token (`Security`,
--   core/security.py). On a miss `AuthClient` (grpc_clients/auth_client.py) asks the auth service.
-- * Dispatcher (dispatcher): `Processor.process_webhook` (orchestrator/processor.py) handles one message
--   of the webhook queue: `Resolver` (orchestrator/webhook_config.py) finds the configuration,
--   `Delivery` (orchestrator/delivery.py) sends the request, and a failure becomes a retry or a dead
--   letter by `Retry` (utils/retry.py), which goes back to the queue through the broker.
-- * AuthService (auth_service): `Tokens` (routes/auth.py), `Services` (services/auth.py and
--   routes/webhook.py), `ApiKeys` (routes/api_keys.py) and `Servicer` (grpc/grpc_servicer.py) over
--   `Session`, the database session of a request, and `Utils` (utils/auth.py).
-- * Api (api): `upload_file` of main.py, which stores a file, adds its job and tells the scanner.
-- * SecurityScanner (security_scanner): `Worker.scan_file` of worker.py, which takes the task from the
--   upload, has ClamAV scan the file, and passes a clean image on to the image processor. `Frame` has
--   its local variables, and `ClamAv` is `ClamAVClient` of clamav.py. `Lifecycle` is the
--   specification of the life of a job.
-- * ImageProcessor (image_processor): `Worker.process_image` of worker.py, which makes the copies, and
--   `Rotation`, its `_rotate_image`.
-- * LoggerService (logger_service): the loop `audit_logger` of worker.py, which stores the audit events
--   of all services in batches.
-- * Migrations (database/migrations): `Op` has the calls of alembic as data, `Versions` what each revision
--   of versions does, and `Env` what env.py configures.
-- * `SecurityScanner.Loop`, `ImageProcessor.Loop` and `Dispatcher.Loop` are the processes of the three
--   workers (`scan_worker`, `processor`, `start_worker`): they connect, take the messages that come until
--   the queue is closed, one by one (`Shared.Consumer`), and close their clients. `Api.Lifespan`,
--   `Gateway.Lifespan` and `AuthService.Process` are the start and stop of the HTTP services (main.py).
-- * Pipeline runs one service on the messages that another sent, when no call fails: `Scan` the upload
--   and the scan, `Images` the processing of the image too, and `Delivery` the dispatcher.
--   `Shared.Quiet` and the modules `Quiet` of the services say what their operations come to then.
-- * Prelude has what all share, and Tests has scenarios with concrete inputs.
--
-- Code that may raise is a function from a state to a result and a state (`Exec`): what was written
-- before an exception stays. Each awaited call of an external system has a number, and a parameter of
-- type `Faults` says whether the n-th call raises and what. A call that raises has had no effect, so a
-- theorem for all faults speaks of every sequence of such failures of Redis, RabbitMQ, the database or
-- a service, and not of a call that was carried out and whose answer was lost. Redis is the interface
-- `Redis` with its documented behaviour `IsRedis`, which `Redis.Memory` fulfils. Hashes, tokens,
-- JSON encoders, clocks, random draws, gRPC and httpx are parameters.
--
-- Two functions call themselves, `FileServiceHandler.get_context` and `get_webhook_config` of the
-- resolver. They run on fuel that stands for Python's limit on the depth of calls; without it they
-- raise what Python raises. With no failing call the second call finds what the first has stored,
-- so a depth of two is enough.
--
-- Times are whole numbers, an id is a number that stands for a UUID, and a JSON value within a message
-- is kept by its truth value and identity. Of an object in S3 the bucket and the key are kept, not the
-- content. An attempt number that is a bool or a float is taken to be a `TypeError`. aio_pika settles a
-- message once, and raises if it is to settle it again. Log lines are left out, save where they raise.
-- ClamAV's answers, tenacity's `retry`, alembic and what Pillow and piexif do are parameters, whose
-- documented behaviour is stated where it is used.
-- `message.process` of aio_pika is a parameter too (`AioPika`).
-- Not modelled: auth_service/grpc/grpc_server.py, which is calls of grpc; the code that protoc generates;
-- the middleware of gateway/main.py and shared/logger.py, which log only; the engine of database.py,
-- which is calls of sqlalchemy; `iterator` of api/main.py, which nothing calls; and what the modules do
-- when they are run as scripts.
pub mod Prelude
pub mod Shared
pub mod Gateway
pub mod Dispatcher
pub mod AuthService
pub mod Lifecycle
pub mod Api
pub mod SecurityScanner
pub mod ImageProcessor
pub mod LoggerService
pub mod Migrations
pub mod Pipeline
pub mod Tests
