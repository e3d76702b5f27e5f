-- ===== src/Examples/Notices.antt =====
-- Hooks and polls: a definition with hooks on failure, and a store whose runs end.
use aegis_fs.Prelude.{
  ℕ, suc, String, some, List, [], ◌∷◌, ◌++◌, filter, ◌≡◌, ◌↔◌, refl, Elem, arith,
}
use aegis_fs.Prelude.Eq.{string_eq}
use aegis_fs.Prelude.Int.{pos}
use aegis_fs.Prelude.Result.{Result, ok, err}
use aegis_fs.Prelude.Sort.{sort_by, place}
use aegis_fs.Domain.Run.{Run}
use aegis_fs.Domain.RunStatus
use aegis_fs.Domain.Workflow.{HookSpec, WorkflowDef}
use aegis_fs.Persistence.Filter.{default_filter}
use aegis_fs.Persistence.Records.{list_runs}
use aegis_fs.Persistence.Store.{MemoryState}
use aegis_fs.Events.Kind.{EventKind, RunEventDoc, from_run, delivery_id, code}
use aegis_fs.Events.Outbox.{Delivery}
use aegis_fs.Events.Dispatch.{
  Dispatcher, match_hooks, match_loop, slice_for, short_code, trim_start_matches, deliveries_of,
  build_deliveries, deliver_all, dispatch,
}
use aegis_fs.Events.Dispatch.Matched.{applies}
use aegis_fs.Events.Dispatch.Attempts.{logged, Carries, dispatch_lem}
use aegis_fs.Events.Watcher.{
  Candidate, Watcher, StoreReads, memory_reads, no_round, new, round_stats, started_of, finished_of,
  advance, dispatch_event, dispatch_each, poll,
}
use aegis_fs.Events.Watcher.Batch.{StartDue, EndDue}
use aegis_fs.Events.Watcher.Poll.{InOrder, AllFired, poll_lem, poll-again}
use aegis_fs.Events.Watcher.Late.{stay, then_poll, late_end-missed}
use aegis_fs.Examples.Data.{pipeline, run_1, store}

abbrev hook : String → HookSpec
hook filter = record {
  webhook_url = some "http://localhost/a";
  event_filter = some filter;
  headers = [];
}

abbrev watched : WorkflowDef ℕ ℕ
watched = record pipeline {
  hooks = record {
    on_start = [];
    on_success = [];
    on_failure = hook "failed" ∷ hook "run.timed_out" ∷ [];
    on_cancel = [];
  };
}

abbrev failed_at : String → ℕ → Run ℕ
failed_at id at = record run_1 {
  id = id;
  status = RunStatus.failed;
  started_at_ms = some (pos 20);
  finished_at_ms = some (pos at);
}

abbrev written : RunEventDoc ℕ → String
written ev = ev.kind

abbrev hashed : String → String
hashed s = s

-- The sink counts the attempts and refuses every delivery.
abbrev refuse : Delivery → ℕ → Result String (Unit {0}) × ℕ
refuse d n = (err "refused", suc n)

abbrev idle : Dispatcher (List Delivery × ℕ)
idle = record { sink = ([], 0); delivered = 0 }

dispatch_lem_example :
    (w' : Dispatcher (List Delivery × ℕ)) × (ds : List Delivery) × (dispatch written hashed
        (logged refuse)
        watched
        EventKind.run_failed
        (from_run (failed_at "r1" 60) EventKind.run_failed (pos 61))
        idle
      ≡ some ((match_hooks watched EventKind.run_failed).1, w'))
    × (w'.sink.0 ≡ [] ++ ds)
    × Carries written hashed EventKind.run_failed
        (from_run (failed_at "r1" 60) EventKind.run_failed (pos 61))
        (filter (applies EventKind.run_failed) (slice_for watched.hooks EventKind.run_failed))
        ds
dispatch_lem_example =
    dispatch_lem written hashed watched EventKind.run_failed
      (from_run (failed_at "r1" 60) EventKind.run_failed (pos 61)) refuse idle

abbrev ending : MemoryState ℕ ℕ
ending = record store {
  runs =
      ("r1", failed_at "r1" 60)
      ∷ ("r2", record run_1 { id = "r2"; started_at_ms = some (pos 30) })
      ∷ [];
  defs = (("t", "pipeline"), record { def = watched }) ∷ [];
}

abbrev booted : Watcher ℕ
booted = new (record { sink = 0; delivered = 0 }) (pos 10)

poll_lem_example :
    (starts ends : List (Candidate ℕ)) × (w' : Watcher ℕ) × (poll written hashed refuse
        (memory_reads ending)
        (pos 70)
        booted
      ≡ some (round_stats starts ends, w'))
    × AllFired written hashed refuse
        (memory_reads ending)
        (pos 70)
        (starts ++ ends)
        booted.dispatcher
        w'.dispatcher
    × InOrder starts
    × InOrder ends
    × ((c : Candidate ℕ) → Elem c starts ↔ StartDue (pos 10) (list_runs default_filter ending) c)
    × ((c : Candidate ℕ) → Elem c ends ↔ EndDue (pos 10) (list_runs default_filter ending) c)
unfolding memory_reads
poll_lem_example =
    poll_lem written hashed refuse (memory_reads ending) (pos 70) (list_runs default_filter ending)
      booted refl

abbrev seen : StoreReads ℕ ℕ
seen = record {
  runs_of = λ _. ok (failed_at "r1" 60 ∷ []);
  workflow_of = λ _ _. ok (record { def = watched });
}

abbrev reported : Watcher ℕ
reported = record {
  dispatcher = record { sink = 1; delivered = 0 };
  cursor = record { started_ms = pos 10; finished_ms = pos 60 };
}

first_poll :
    poll written hashed refuse seen (pos 70) booted
    ≡ some (record { started = 0; finished = 1; dispatched = 1 }, reported)
unfolding poll started_of finished_of advance sort_by place dispatch_each dispatch_event dispatch
    from_run build_deliveries match_hooks match_loop deliveries_of delivery_id deliver_all code
    short_code trim_start_matches
first_poll = refl

poll-again_example : poll written hashed refuse seen (pos 80) reported ≡ some (no_round, reported)
poll-again_example =
    poll-again written hashed refuse seen (pos 70) (pos 80) booted reported
      (record { started = 0; finished = 1; dispatched = 1 }) first_poll

again : poll written hashed refuse seen (pos 80) reported ≡ some (no_round, reported)
unfolding poll
again = refl

late_end-missed_example : ¬ (
    (c : Candidate ℕ) × Elem c (finished_of (pos 60) (failed_at "r1" 60 ∷ failed_at "r3" 60 ∷ []))
    × (c.run ≡ failed_at "r3" 60))
late_end-missed_example =
    late_end-missed written hashed ℕ refuse reported reported
      (failed_at "r1" 60 ∷ failed_at "r3" 60 ∷ []) (failed_at "r3" 60) (pos 60) refl (omega arith)
      (then_poll reported reported reported seen (pos 80) no_round again (stay reported))
