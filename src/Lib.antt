-- ===== src/Lib.antt =====
-- mad-edge runs coding agents for sessions: each session has a queue of tasks, a dispatch policy and
-- a priority; one task at a time is handed to an agent's launcher; workflows are graphs of steps, each
-- step a session with one task. Everything that happens is an event of an append-only log, from which
-- the state is rebuilt at a restart. The paths below are under src/mad in the repository.
--
-- The files, and the code that they are about:
--   Prelude: Python's dicts as lists of entries in insertion order, tests on texts and numbers, the
--     stable sort of `sorted`, and the order of texts.
--   Policy: core/orchestration/domain/dispatch_policy.py and deployment_policy.py. `Window.contains`,
--     `WorkWindowPolicy.is_open`, `can_dispatch`, `next_window_opening` and
--     `resolve_effective_policy`; Serial has `policy_from_dict` and `policy_to_dict`. zoneinfo is the
--     parameter `Zones`, whose one law is that an ISO weekday is between 1 and 7, and what Python's
--     `int` reads as a digit or skips as a space is the parameter `Digits`, which knows of the ASCII
--     digits.
--   Tasks, Sessions, Events, Json: the entities and payloads (core/orchestration/domain/task.py and
--     the *_config.py beside it, core/sessions/domain/entities/session.py,
--     core/events/domain/event.py), and the bus of adapters/outbound/events/in_memory_event_bus.py as
--     one subscriber sees it.
--   Projection: adapters/outbound/orchestration/projection.py, one function for each handler, and the
--     replay of a log, which `query_log` sorts by id and cuts to a million events; View has its
--     specification, a family of independent queues, and Places where a task may stand.
--   Ordering: core/orchestration/domain/ordering.py.
--   Run: core/orchestration/domain/retry_schedule.py and `_run_task` of
--     core/orchestration/use_cases/dispatcher.py. Dispatcher: the rest of that file, as the stretches
--     of its coroutines between two awaits, which `Dispatcher.Single.Step` interleaves with the rest
--     of the program; `emit` is core/events/emitter.py.
--   Workflow: core/orchestration/domain/workflow.py; Validate has `validate_workflow` and its search
--     for cycles, Serial the payload of `workflow.created`.
--   Coordinator: core/orchestration/use_cases/workflow_coordinator.py; Mounts resolves what a step
--     takes from earlier ones, Advance starts and ends steps, Restart replays the log and resumes;
--     Once has the runs with restarts, also amid the events of one handler.
--     The creation of a session is an operation of the record `Surroundings`.
--   Store: adapters/outbound/persistence/jsonl_session_repository.py, the logs as lists of dicts, and
--     the reading of an event in core/events/domain/event.py. `str(UUID)`, `isoformat()` and their
--     inverses are the parameter `Formats`, by which what was written is read back.
--   EventLog: core/events/use_cases/query_events.py and stream_events.py with
--     adapters/outbound/events/jsonl_event_log_query.py. Paging has a client that follows the cursors,
--     Stream the replay and the live tail, whose log grows while the replay reads it; Subscription has
--     its code, with the bounded queue of a subscription on the bus; Ids is core/events/domain/event_id.py.
--   GlobalQueue: core/orchestration/use_cases/get_global_queue.py; Agreement compares it with the
--     dispatcher.
--   Rehydrate: core/sessions/domain/rehydrate.py and
--     core/orchestration/use_cases/rehydrate_pending_sessions.py. Deployment: the settings of
--     core/orchestration/use_cases/deployment_dispatch_policy.py, deployment_model_config.py and
--     deployment_effort_config.py, with the restart that reads them back.
--   ReadModel: adapters/outbound/orchestration/workflow_projection.py.
--   UseCases: the calls of the API on this state, from core/orchestration/use_cases and
--     core/sessions/use_cases/delete_session.py.
--   Examples: concrete inputs.
--
-- How they interact: a use case appends events to the log and publishes them on the bus; the
-- dispatcher's loop takes them from its subscription, applies them to the projection and dispatches;
-- a run emits the events of its task; the coordinator reacts to the ends of tasks.
--
-- Numbers: instants are microseconds, durations of retries milliseconds, rounded down; task ids are
-- the numbers of the UUIDs. `next_window_opening` runs on fuel, one unit for each minute of the
-- horizon and one for the last test; a run has fuel for twelve launches, by when the waits are past
-- the ceiling of five hours; the order of dispatch has one unit of fuel for each task; the search for
-- cycles has one for each node and one more, as a path of grey nodes does not repeat; a chain of
-- inherited repository URLs has one for each step and one more; the pages of a query and of a replay
-- have one for each event of the log and one more, as each page but the last moves the cursor on.
--
-- Not modelled: HTTP, MCP, subprocesses and the parsing of their output, git, the files under the
-- logs (a line is a dict, so text that is no JSON does not show) and environment variables; the use
-- cases of core/sessions but the deletion; CPython's limit on the depth of recursion. A field of a log that has another type than the program writes is read as
-- a missing one where the code would carry it along.
pub mod Prelude
pub mod Policy
pub mod Json
pub mod Tasks
pub mod Sessions
pub mod Workflow
pub mod Events
pub mod Projection
pub mod Ordering
pub mod Store
pub mod Run
pub mod Dispatcher
pub mod Coordinator
pub mod GlobalQueue
pub mod Rehydrate
pub mod Deployment
pub mod EventLog
pub mod UseCases
pub mod ReadModel
mod Examples
