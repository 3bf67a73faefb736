-- ===== src/Lib.antt =====
-- The realtime transcribe service: WebSocket sessions that take transcript messages in order, store
-- them in Kafka, and keep each conversation's expected sequence number in Redis. Paths below are from
-- src/realtime_transcribe_service/, in the repository.
--
-- How a message travels. The handshake middleware (transport/app.py) admits a connection, the endpoint
-- (transport/session.py) registers it, claims the conversation and runs the message loop, and the loop
-- hands each JSON value to the orchestrator (orchestrator/two_phase.py). The orchestrator validates the
-- message, asks the sequence state machine (redis/sequence_state_machine.py) whether the number is the
-- expected one, sends the record by the producer (producer/kafka_producer.py), commits the number, and
-- answers with an acknowledgement or an error frame (schemas/).
--
-- Which file models what.
--   Prelude        numbers, tests, Python's str operations, and code that changes state and may raise
--                  (Exec): what was written before a raise stays written. A call to another process
--                  (Delivery) is served, or raises before or after it has taken effect.
--   Json, Schemas  the JSON values, and schemas/: events, error codes, the table of error scenarios with
--                  its formatting, the response builders, and the validators of the request models.
--   Redis          redis/: a server by its documented commands (Server), the five Lua scripts as
--                  functions on it (Scripts), EVALSHA with the reload on NoScriptError (EvalSha), the
--                  classes RedisSequenceStateMachine and RedisConversationOwnershipGuard, processes
--                  that share a server (Fleet), and a concrete server (Memory) that the tests run on.
--   Converter, Producer   converter/ and producer/kafka_producer.py, over a topic that appends, and
--                  producer/kafka_connection.py with its token cache (Producer/KafkaConnection).
--   Orchestrator   TwoPhaseOrchestrator: handle_message, _process (split at its calls: process,
--                  process_valid, after_prepare, persist, after_send) and _classify_validation_error.
--   Pipeline       the object graph of service_runtime.py for one message: the orchestrator over Redis
--                  and Kafka, what one message does (Message), and what holds over any steps (InStep).
--   Workers        _process cut at its calls, so that tasks interleave: one task alone (Sequential),
--                  what a call does (Knows, Moves), and any order of the calls (Interleaving).
--   Auth           auth/jwt_bearer.py.
--   Transport      transport/registry.py (Registry), transport/session.py (Session, and the life of one
--                  connection in Endpoint), the rate limit of its slow-message log (SlowMessages), and the
--                  handshake, the readiness probe and the mount path of transport/app.py (Admission,
--                  Readiness, Mounting).
--   Settings       the environment rules of config/settings.py, its URL prefix (Prefix), its fields and their
--                  validators (Fields), and the merge of config/secrets_loader.py (Secrets).
--   Logging        the masking of config/logging_config.py, its patterns (Texts), and its filter of the
--                  health probes' access lines (Access).
--   SecretSync     ci-cd/sync_secret.py, of the repository's root: the documents and their merge (SecretSync),
--                  the checks and the bundle (Rendering), and the command (World, Command). Beside what a
--                  run leaves (Review, Upload, Contract), Service is about it and the loader together.
--   Shutdown       shutdown/graceful.py.
--   Runtime        create_runtime_bundle, close_runtime_bundle, close_redis_runtime, and run of main.py,
--                  by what each step may raise (Runtime, Closing); the factories and what they pass from
--                  the settings to the parts (Wiring); and the start-up checks of main.py (Startup).
--   Tests          the theorems at concrete inputs.
--
-- State is a record that each operation takes and returns. Awaiting a call runs it to its end; a Redis
-- script is one step, as Redis runs it. Loops are structural: over the texts that arrive, the rounds of
-- the refresh task, or the steps of a run. Three run on fuel: the decimal form of a number, with the number
-- and one more, more than its digits; and the loop on double slashes in a URL prefix, with the length of
-- the text, which each round shortens. A pattern in a log text is replaced in as many rounds as the text
-- has characters, of which each match takes one or more.
--
-- What is assumed. The Redis server, the Kafka topic, pydantic's model_validate, Starlette's
-- WebSocket, PyJWT's decode and Secrets Manager with json.loads, dotenv and str.upper are
-- parameters, as are the answers of the AWS signer, tomllib, json.dumps, urlparse, str.lower and
-- whether ssl.create_default_context makes a context of a CA file;
-- Redis, Kafka and pydantic come with laws that say what their documentation promises. repr of a
-- text, uuid4, clocks and timings are arguments.
--
-- What is not modelled: what is logged, how pydantic reads settings, and other tasks that run while
-- close_all awaits. The refresh task of an endpoint runs while its message loop waits for a text, and not
-- inside the handling of one.
pub mod Prelude
pub mod Json
pub mod Schemas
pub mod Redis
pub mod Converter
pub mod Producer
pub mod Orchestrator
pub mod Pipeline
pub mod Workers
pub mod Transport
pub mod Auth
pub mod Runtime
pub mod Shutdown
pub mod Settings
pub mod Logging
pub mod SecretSync
pub mod Tests
