-- ===== src/Lib.antt =====
-- Verification of the workflow runner: the lifecycle of runs and tasks, the store with its queue of
-- leased runs and its cache, the retry policies, the executor that drives one attempt of a run, the
-- dispatcher and the throttles in front of it, the order of tasks, the checks of definitions, ids,
-- cron schedules, the expressions and templates of task inputs, the watcher that turns stored changes
-- into events, the hooks that they fire, and the outbox of webhooks.
--
-- Parts and files, with the source of each (paths from the repository's root):
--   Domain/        src/domain/{status,retry_policy,workflow,run,ids,error}.rs and src/error.rs. The
--                  enums and structs as data types and records, with the source's names; RunStatus,
--                  TaskStatus, FailureKind and Priority have a file each. Ids is the encoding of
--                  ids.rs, Ids/Decode its decoder and parser and Ids/Handler its checks of the
--                  ids of tenants and handlers. Dag is dag.rs; its children are the theorems,
--                  Dag/Rounds with the invariant of the loop. Validation is validation.rs and
--                  Versioning versioning.rs.
--   State/         src/state/. Machine is machine.rs (the transition table and its edges), RunFsm
--                  and TaskFsm the two lifecycles, Invariant check_run_consistency. Each has a child
--                  with its theorems, against diagrams that are given as indexed data types.
--   Retry/         src/retry/. Backoff is backoff.rs, Planner the plan of mod.rs, Bounds the theorems,
--                  Random the seeded generator, which is a parameter.
--   Persistence/   src/persistence/. Store is the state of memory.rs; Records its workflows, runs,
--                  task runs and counter; Queue its queue operations and cancel_run; Model model.rs;
--                  Filter filter.rs. Records also has reap_finished_runs of mod.rs. Calls is the
--                  trait Store of mod.rs as a type of calls; LruStore is lru_store.rs, over the cache
--                  of the crate lru, which is a parameter with the laws that are used.
--   Plugins/       src/plugins/handler.rs: what a handler gets and returns.
--   Scheduler/     src/scheduler/. Pick is pick.rs; Executor is executor.rs, with the execution of
--                  tasks and the loop in Executor/Tasks, finalize in Executor/Finalize and the whole
--                  attempt in Executor/Attempt; its other children are theorems. Throttle/Fair and
--                  Throttle/Limiter are the dispatcher and the limiter of throttle.rs; Pool is
--                  pool.rs. Cron is the parsing of cron.rs, and Cron/Clock its search for ticks and
--                  its triggers.
--   Events/        src/events/. Outbox is outbox.rs, over a sink that is a parameter with a state. Kind
--                  is mod.rs, over the JSON text and the digest; Dispatch is dispatch.rs, with the
--                  hooks that an event matches; Watcher is watcher.rs, over what a poll reads of a
--                  store. Their children are the theorems.
--   Engine/        src/engine/expr.rs: Value is ExprValue with its conversions and its text, Expr the
--                  context and the evaluation, Template the interpolation.
--   Prelude/       shared types and lemmas: tests, lists, 64-bit integers, maps, sorted maps, sorting,
--                  text, and Float, the operations of f64, which are a parameter.
--   Examples/      the theorems at concrete inputs.
--
-- How the parts interact: the executor reads and writes the store by its operations, asks Pick which
-- tasks may run, checks transitions with RunFsm and TaskFsm, and takes the time of a retry from Retry.
-- The dispatcher of Pool claims queue entries of the store and marks their runs; LruStore answers the
-- calls of the store's trait in its place.
--
-- How the code is modelled: an operation of the store runs under one lock, so it is a function of the
-- state; an error is a value of Result. The executor is a state monad over the store and the number of
-- clock readings. A handler is a function that may change the store, since other threads can while it
-- runs; changes between two steps of the executor other than in a handler are not modelled. A panic is
-- a value: none where a function can only panic, the error `panic` in the executor. Machine integers
-- are numbers with their wrap-around or saturation written out; counters wrap as in a release build.
-- JSON values are a type parameter, but for Engine and the input checks of Validation, which look into
-- them. The fields of a DateTime, the parser of URLs and the numbers of JSON are parameters. A HashMap
-- is an association list in any order, a BTreeMap one in the order of its keys. Threads that share an
-- atomic counter are sequences of their atomic steps.
--
-- Fuel: pending_to_skip has the number of tasks plus two, the loop of an attempt the number of tasks
-- plus one, topo_order the number of tasks, a step of a cron field the span of the field, and the
-- digits of base32hex three rounds for at most 12 bits. The loops of pop and of the limiter's
-- exchange are not on fuel: the first counts its rounds, the second is a step for each round.
--
-- Not modelled: the SQLite store, HTTP, gRPC, the command line, configuration, telemetry, processes
-- and files, which are I/O, as are the sinks of events that log or post; and the threads of the worker
-- pool, LeakyBucket, snapshots, submission and garbage collection. The builders of RunFilter are field assignments and are left
-- out.
mod Prelude
pub mod Domain
pub mod State
pub mod Retry
pub mod Persistence
pub mod Plugins
pub mod Scheduler
pub mod Events
pub mod Engine
mod Examples
