-- ===== src/Lib.antt =====
-- auto_workflow: a verification library for the Python package auto_workflow.
--
-- A flow is a Python function that calls tasks. While it runs, each call registers an invocation
-- in a build context (auto_workflow/build.py, module Build). The flow object then adds an order
-- between some invocations (auto_workflow/flow.py, module Flow) and hands them to the scheduler
-- (auto_workflow/scheduler.py, module Scheduler), which makes a graph of them, sorts it
-- (auto_workflow/dag.py, module Dag) and runs the tasks, each by its definition's retry loop
-- (auto_workflow/task.py, module Task). The whole run of a flow, Flow._run_internal from the
-- built structure on, is module Run. Exceptions are values of `Exn`
-- (auto_workflow/exceptions.py, module Exceptions); Base holds lists, dicts, strings and
-- numbers, Tests runs at concrete inputs.
--
-- Around this stand the result caches (auto_workflow/cache.py, module Cache), the artifact
-- stores (auto_workflow/artifacts.py, module Artifacts), the chain of middlewares around the run
-- of a task (auto_workflow/middleware.py, module Middleware), the overlay of a configuration by
-- environment variables (auto_workflow/env_overrides.py, module Overrides) and the registry of
-- connectors (auto_workflow/connectors/registry.py, module Registry).
--
-- The configuration (auto_workflow/config.py, `load_config`) is module Settings. The event bus
-- (auto_workflow/events.py) is module Events, and the structured log
-- (auto_workflow/logging_middleware.py) module Logging, with its registration in
-- Logging.Registered and the handlers of its logger in Logging.Handlers. The scheduler's
-- `schedule`, with the result cache and the runs that identical tasks share, is module Inflight:
-- its record ResultCache is the interface of a cache, which Inflight.Memory fills with the cache
-- in memory.
--
-- Flow.describe, Flow.export_graph and Flow.export_dot show a flow with its placeholders
-- (auto_workflow/flow.py, modules Describe and Export, with DAG.to_dict and DAG.to_dot in
-- Dag.Text); the scheduler's `_hydrate` puts results into arguments (module Hydrate), and its
-- expansion of placeholders with auto_workflow/fanout.py is module Fanout. The connectors share
-- their errors and the span of an operation (auto_workflow/connectors/exceptions.py and base.py,
-- module Connectors, with redact of utils.py in Connectors.Redact); the Postgres client
-- (auto_workflow/connectors/postgres.py) is module Postgres: its state and transactions, with
-- the mapping of errors in Errors, the texts in Text, queries in Query, COPY in Copy the
-- SQLAlchemy engine in Engine and its session in Engine.Session. The ADLS2 client
-- (auto_workflow/connectors/adls2.py) is module Adls, with its mapping of errors in Adls.Errors
-- and its operations on files and containers in Adls.Operations.
--
-- Correspondence. A Python dict is an association list in insertion order, a set is a list with
-- no element twice, a `str` is the list of its code points, an `int` that may be negative is a ℤ
-- over the native ℕ. A method that changes an object is a function from its state to its new
-- state. Fallible code returns `Result`. Functions and fields have the names of the source:
-- Dag.add_node, Dag.add_edge and Dag.topological_sort; Build.register (BuildContext.register),
-- Build.next_id (BuildContext._next_id), Build.iter_invocations; Flow.sequence (the block on the
-- returned invocations in Flow._run_internal); Task.run (TaskDefinition.run);
-- Scheduler.execute_dag with the steps `dispatch` (start what is ready), `complete` (the end of
-- `schedule`), `process` and `release_child` (what follows `asyncio.wait`). In Inflight, `enter`
-- is `schedule` up to its first await, `finish` what follows the run of the task, and `resume`
-- what follows the await of another task's future; Inflight.Reachable has these steps in every
-- order.
--
-- Bounds. Dag.kahn has fuel for one round per node, since each round takes a node away.
-- Base.decimal has n + 1 rounds for the digits of n. Task.run_from is a recursion on the retries
-- left, and Scheduler.loop one on the batches of finished tasks that the event loop reports.
-- Describe.transitive_consumers has a round for each direct consumer and each entry of the
-- adjacency; Export.walk_up, Postgres.Query.drain and Postgres.Copy.copy_file take their bound
-- as an argument. Scheduler.Ends.Reports says what the batches of a run are: each is not empty,
-- and names tasks that are pending then, once each; a list of batches that ends too early leaves
-- the outcome `waiting`.
--
-- Environment. What user code does in each attempt, the jitter, and which tasks each
-- `asyncio.wait` reports are arguments, as are the clock, uuid4, the serialisers, `json.loads`
-- and `os.environ`, psycopg with its pool, SQLAlchemy and the Azure SDK, so the theorems hold
-- for every such behaviour that meets their hypotheses. A batch also says how each task ended:
-- Scheduler.Finish is the outcome of its run, or an exception that left `schedule` outside its try
-- block, as for a task that awaits the future of a cached run (Inflight.resume). An entry of the
-- results is `failed` if it is a TaskExecutionError, also one that a task returned. Which objects
-- have a hash, beside lists, sets, dicts, tuples, texts and invocations, is an argument of
-- `hydrate` and `replace_invocations`; equal elements of a set are not merged.
--
-- Not modelled: the expansion of placeholders as a step of the scheduler's loop, cancellation
-- and semaphores; the hash of a cache key; sharing between configurations; tracing, metrics,
-- executors and the command line, which are I/O and glue; fan_out, download_stream,
-- sqlalchemy_reflect, the reading of the project file; a callback of the event bus that
-- subscribes to the event that it is called for.
pub mod Base
pub mod Exceptions
pub mod Dag
pub mod Task
pub mod Build
pub mod Flow
pub mod Scheduler
pub mod Artifacts
pub mod Cache
pub mod Middleware
pub mod Overrides
pub mod Registry
pub mod Settings
pub mod Describe
pub mod Export
pub mod Hydrate
pub mod Run
pub mod Events
pub mod Logging
pub mod Inflight
pub mod Fanout
pub mod Connectors
pub mod Postgres
pub mod Adls
pub mod Tests
