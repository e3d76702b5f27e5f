-- ===== src/Events/Watcher.antt =====
-- src/events/watcher.rs: the poll that turns the stored changes of runs into events. What it reads of
-- the store is a record of the two operations that it calls; `None` of the model is a panic.
pub mod Batch
pub mod Quiet
pub mod Poll
pub mod Late
use mathlib.Core.Option
use aegis_fs.Prelude.{
  ℕ, zero, ◌+◌, String, Bool, true, false, Option, none, some, List, [], ◌∷◌, ◌++◌, length,
  if◌then◌else◌,
}
use aegis_fs.Prelude.Int.{ℤ, ltb_ℤ}
use aegis_fs.Prelude.Partial.{filter_map}
use aegis_fs.Prelude.Result.{Result, ok, err}
use aegis_fs.Prelude.Sort.{sort_by}
use aegis_fs.Prelude.Text.{str_le}
use aegis_fs.Domain.Error.{StorageError}
use aegis_fs.Domain.Run.{Run}
use aegis_fs.Domain.RunStatus
use aegis_fs.Domain.RunStatus.{RunStatus}
use aegis_fs.Persistence.Filter.{RunFilter, default_filter}
use aegis_fs.Persistence.Model.{WorkflowRecord}
use aegis_fs.Persistence.Records.{list_runs, get_workflow}
use aegis_fs.Persistence.Store.{MemoryState}
use aegis_fs.Events.Kind.{EventKind, RunEventDoc, from_run, terminal_kind_for}
use aegis_fs.Events.Outbox.{Delivery}
use aegis_fs.Events.Dispatch.{Dispatcher, dispatch}

pub record WatchStats : Type 0 where
  pub started : ℕ
  pub finished : ℕ
  pub dispatched : ℕ

abbrev pub no_round : WatchStats
no_round = record { started = 0; finished = 0; dispatched = 0 }

pub record Cursor : Type 0 where
  pub started_ms : ℤ
  pub finished_ms : ℤ

pub record Watcher (S : Type 0) : Type 0 where
  pub dispatcher : Dispatcher S
  pub cursor : Cursor

abbrev pub new : {S : Type 0} → Dispatcher S → ℤ → Watcher S
new dispatcher boot_ms = record {
  dispatcher = dispatcher;
  cursor = record { started_ms = boot_ms; finished_ms = boot_ms };
}

-- The calls of the trait `Store` that a poll makes.
pub record StoreReads (Json F64 : Type 0) : Type 0 where
  pub runs_of : RunFilter → Result StorageError (List (Run Json))
  pub workflow_of : (tenant name : String) → Result StorageError (WorkflowRecord Json F64)

unfoldable pub memory_reads : {Json F64 : Type 0} → MemoryState Json F64 → StoreReads Json F64
unfolding list_runs get_workflow
memory_reads s = record {
  runs_of = λ f. ok (list_runs f s);
  workflow_of = λ tenant name. get_workflow tenant name s;
}

-- The tuples of the poll; a started one has the kind that its loop passes on.
pub record Candidate (Json : Type 0) : Type 0 where
  pub at : ℤ
  pub kind : EventKind
  pub run : Run Json

module _ {Json : Type 0} where
  -- Past the watermark, if there is a time at all.
  abbrev pub past : ℤ → Option ℤ → EventKind → Run Json → Option (Candidate Json)
  past watermark none kind r = none
  past watermark (some at) kind r =
      if ltb_ℤ watermark at then some (record { at = at; kind = kind; run = r }) else none

  abbrev pub started_candidate : ℤ → Run Json → Option (Candidate Json)
  started_candidate watermark r =
      if RunStatus.eq r.status RunStatus.running
      then past watermark r.started_at_ms EventKind.run_started r
      else none

  abbrev pub ended : ℤ → Option EventKind → Run Json → Option (Candidate Json)
  ended watermark none r = none
  ended watermark (some kind) r = past watermark r.finished_at_ms kind r

  abbrev pub finished_candidate : ℤ → Run Json → Option (Candidate Json)
  finished_candidate watermark r = ended watermark (terminal_kind_for r.status) r

  -- The order of the pairs of the time and the id.
  abbrev pub key_le : Candidate Json → Candidate Json → Bool
  key_le a b =
      if ltb_ℤ a.at b.at then true else if ltb_ℤ b.at a.at then false else str_le a.run.id b.run.id

  unfoldable pub started_of : ℤ → List (Run Json) → List (Candidate Json)
  unfolding sort_by
  started_of watermark runs = sort_by key_le (filter_map (started_candidate watermark) runs)

  unfoldable pub finished_of : ℤ → List (Run Json) → List (Candidate Json)
  unfolding sort_by
  finished_of watermark runs = sort_by key_le (filter_map (finished_candidate watermark) runs)

  -- The time of the last candidate, or the old watermark.
  abbrev pub last_at : ℤ → List (Candidate Json) → ℤ
  last_at watermark [] = watermark
  last_at watermark (c ∷ cs) = last_at c.at cs

  unfoldable pub advance : Cursor → (started finished : List (Candidate Json)) → Cursor
  advance cursor started finished = record {
    started_ms = last_at cursor.started_ms started;
    finished_ms = last_at cursor.finished_ms finished;
  }

  abbrev pub round_stats : (started finished : List (Candidate Json)) → WatchStats
  round_stats started finished = record {
    started = length started;
    finished = length finished;
    dispatched = length started + length finished;
  }

module _ {Json : Type 0} (to_string : RunEventDoc Json → String) (digest : String → String)
    {F64 S : Type 0} (deliver : Delivery → S → Result String (Unit {0}) × S)
    (reads : StoreReads Json F64) (now_ms : ℤ) where
  -- A missing definition drops the event.
  abbrev pub fired :
      EventKind
      → Run Json
      → Result StorageError (WorkflowRecord Json F64)
      → Dispatcher S
      → Option (Dispatcher S)
  fired kind run (err _) d = some d
  fired kind run (ok found) d =
      Option.map (λ r. r.1)
        (dispatch to_string digest deliver found.def kind (from_run run kind now_ms) d)

  unfoldable pub dispatch_event : Candidate Json → Dispatcher S → Option (Dispatcher S)
  unfolding dispatch from_run
  dispatch_event c d = fired c.kind c.run (reads.workflow_of c.run.tenant c.run.def_name) d

  unfoldable pub dispatch_each : List (Candidate Json) → Dispatcher S → Option (Dispatcher S)
  unfolding dispatch_event Option.bind
  dispatch_each [] d = some d
  dispatch_each (c ∷ cs) d = Option.bind (dispatch_event c d) (λ d'. dispatch_each cs d')

  abbrev pub round : List (Run Json) → Watcher S → Option (WatchStats × Watcher S)
  round runs w =
      let started = started_of w.cursor.started_ms runs in
      let finished = finished_of w.cursor.finished_ms runs in
      Option.map
        (λ d. (
          round_stats started finished,
          record { dispatcher = d; cursor = advance w.cursor started finished },
        ))
        (dispatch_each (started ++ finished) w.dispatcher)

  abbrev pub polled :
      Result StorageError (List (Run Json)) → Watcher S → Option (WatchStats × Watcher S)
  polled (err _) w = some (no_round, w)
  polled (ok runs) w = round runs w

  unfoldable pub poll : Watcher S → Option (WatchStats × Watcher S)
  unfolding dispatch_each started_of finished_of advance
  poll w = polled (reads.runs_of default_filter) w
