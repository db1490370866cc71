-- ===== src/Lib.antt =====
-- SynQc TDS, the hybrid controller: a development of the logic of backend/synqc_backend/ and of the
-- add-on in archives/addons/.
--
-- A request for an experiment passes the guardrails of the engine (engine.py), which reserve shots
-- with the budget tracker (budget.py), is queued and run by the job queue (jobs.py), and its
-- outcome is kept by the experiment store (storage.py).
--
-- Files:
-- - Prelude, Dict: names of the libraries, tests on numbers, lists, signed integers, results, and
--   Python's dict with text keys (`get`, `put`, `pop`), the removal loop of the trackers with a
--   lifetime (Dict/Sweep) and counting (Dict/Tally).
-- - Models: backend/synqc_backend/models.py and the profile of control_profiles.py.
-- - Budget: backend/synqc_backend/budget.py, `BudgetTracker`. Budget/Redis is the interface of the
--   Redis server, Budget/Memory, Cap and Local are about the in-memory path, Script about
--   `_LUA_RESERVE`, Shared about attempts on a shared server, Capped about the cap under each call,
--   History about histories of calls.
-- - Engine: backend/synqc_backend/engine.py, `_apply_shot_guardrails`. Engine/Guardrails is about it
--   over a tracker in memory, Engine/Shared over one with a Redis server. Engine/Kpis are the
--   adjustments of the KPIs, Engine/Run is `run_experiment`, which puts the guardrail, the answer
--   of the provider, QubitUsage and Storage together.
-- - Storage: backend/synqc_backend/storage.py, `ExperimentStore`; Storage/Sorting is Python's
--   `sorted`.
-- - Jobs: backend/synqc_backend/jobs.py, `JobQueue`. Jobs/Threads are the sections of
--   `_run_job`, Jobs/Statistics is `stats`. Jobs/Steps are the interleavings of the threads,
--   Jobs/Failures, Counting and Pending what holds of them.
-- - QubitUsage: backend/synqc_backend/qubit_usage.py, `SessionQubitTracker`.
-- - EventLog: backend/synqc_backend/orchestration/event_store.py, `EventStore`.
-- - Auth: backend/synqc_backend/auth/deps.py. Auth/Scopes is about `require_scopes` and
--   `require_csrf`, Auth/Principals about `get_principal`.
-- - ControlProfiles: backend/synqc_backend/control_profiles.py, `ControlProfileStore`.
-- - ProviderMetrics: backend/synqc_backend/metrics_recorder.py, the summary of
--   `ProviderMetricsRecorder`.
-- - Shor: the add-on under archives/addons/synqc_shor_addon_v2/synqc_shor_addon_v2/backend/
--   synqc_shor/. Shor/RunStore is run_store.py, Shor/Factor classical_factor.py and factor.py. The
--   fuel of the trial division is the square root, more than the number of its steps.
-- - RequestSize: backend/synqc_backend/middleware.py, `MaxRequestSizeMiddleware`. The fuel of
--   the replay is the length of the body, of which each message takes at least one byte.
-- - RateLimit: `RateLimitMiddleware` of the same file, over an interface of the Redis counters.
-- - JobStore: backend/synqc_backend/job_store.py, over the interface of Redis commands in
--   JobStore/Redis; Queueing: queueing.py of the same directory; WorkerService: `process_one` of
--   worker_service.py. WorkerService/Attempts follows one job through its attempts.
-- - RunQueue: backend/synqc_backend/run_queue.py, `RedisRunQueue`, over the interface of Redis
--   commands in RunQueue/Redis. RunQueue/Counters, Waiting and Claims are about its single
--   operations, Traces are the histories of its clients and workers, Balance and
--   Accounts what holds of them.
-- - RunWorker: backend/synqc_backend/worker.py, `_process_job`.
-- - Workflow: backend/synqc_backend/orchestration/workflow.py and call_client.py; Multicall:
--   backend/synqc_backend/agents/multicall.py. The fuel of the polling loop is the number of its
--   polls; two are enough, since the second answer ends it.
-- - Providers: backend/synqc_backend/provider_clients.py, the clients that sample their counts.
-- - Tests: runs and instances at concrete inputs.
--
-- Times are whole numbers of one unit, and the clock is an argument. Floating point values are of
-- a parameter type where they are only stored, and of an interface of their operations in
-- Engine/Kpis. A call that reaches a server or a file takes the
-- environment's answer as an argument. Locks make the sections of a method atomic steps.
--
-- Not modelled: the HTTP routes, which only route and serialise; the vendors' SDKs and the
-- simulators, the floating point estimators of kpi_estimators.py and stats.py, log output and the
-- Prometheus client, which compute nothing that the parts above decide by; the tables behind the
-- authentication (auth/store.py), whose state is a database of its own; rsa.py of the add-on; and
-- the sqlite spool of the job queue, whose class the program does not define.
mod Prelude
pub mod Dict
pub mod Models
pub mod Storage
pub mod Budget
pub mod Jobs
pub mod Engine
pub mod Auth
pub mod Shor
pub mod ProviderMetrics
pub mod ControlProfiles
pub mod RequestSize
pub mod RunQueue
pub mod RunWorker
pub mod Workflow
pub mod Multicall
pub mod RateLimit
pub mod JobStore
pub mod Queueing
pub mod WorkerService
pub mod Providers
pub mod EventLog
pub mod QubitUsage
mod Tests
