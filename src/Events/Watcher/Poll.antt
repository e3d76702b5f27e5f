-- ===== src/Events/Watcher/Poll.antt =====
-- src/events/watcher.rs: what one poll does, and what sequences of polls see of a run.
use mathlib.Core.Option
use mathlib.Core.Option.{some-injective}
use aegis_fs.Prelude.{
  true, String, some, List, [], ◌∷◌, ◌++◌, ◌≡◌, refl, sym, ap, ◌∙◌, ◌↔◌, ◌⊎◌, inl, inr, Elem, arith,
}
use aegis_fs.Prelude.Int.{ℤ, ◌≤ℤ◌}
use aegis_fs.Prelude.Result.{Result, ok, err, Result-cases}
use aegis_fs.Prelude.Sort.{Sorted}
use aegis_fs.Prelude.Text.{str_le}
use aegis_fs.Domain.Error.{StorageError}
use aegis_fs.Domain.Run.{Run}
use aegis_fs.Persistence.Filter.{default_filter}
use aegis_fs.Persistence.Model.{WorkflowRecord}
use aegis_fs.Events.Kind.{EventKind, RunEventDoc, from_run}
use aegis_fs.Events.Outbox.{Delivery}
use aegis_fs.Events.Dispatch.{Dispatcher, MatchStats, dispatch, match_hooks}
use aegis_fs.Events.Dispatch.Attempts.{dispatch-returns}
use aegis_fs.Events.Watcher.{
  Candidate, Watcher, WatchStats, StoreReads, no_round, key_le, started_of, finished_of, advance,
  round_stats, fired, dispatch_event, dispatch_each, poll,
}
use aegis_fs.Events.Watcher.Batch.{
  StartDue, EndDue, Elem-started_of, Elem-finished_of, started_of-Sorted, finished_of-Sorted,
}
use aegis_fs.Events.Watcher.Quiet.{
  started_of-again, finished_of-again, started_of-grows, finished_of-grows,
}

module _ {Json : Type 0} where
  -- In the order of time, and of the ids at the same time.
  abbrev pub InOrder : List (Candidate Json) → Type 0
  InOrder [] = Unit
  InOrder (a ∷ []) = Unit
  InOrder (a ∷ b ∷ cs) =
      (a.at ≤ℤ b.at) × (b.at ≤ℤ a.at → str_le a.run.id b.run.id ≡ true) × InOrder (b ∷ cs)

  Sorted-InOrder : (cs : List (Candidate Json)) → Sorted key_le cs → InOrder cs
  Sorted-InOrder [] s = tt
  Sorted-InOrder (a ∷ []) s = tt
  Sorted-InOrder (a ∷ b ∷ cs) s =
      (ground (arith, s.0), λ same. ground (arith, s.0), Sorted-InOrder (b ∷ cs) s.1)

module _ {Json : Type 0} (to_string : RunEventDoc Json → String) (digest : String → String)
    {F64 S : Type 0} (deliver : Delivery → S → Result String (Unit {0}) × S) where
  module _ (reads : StoreReads Json F64) (now_ms : ℤ) where
    -- What an event does: nothing if its definition is missing, else one dispatch of its document.
    abbrev FiredBy :
        EventKind
        → Run Json
        → Result StorageError (WorkflowRecord Json F64)
        → (d d' : Dispatcher S) → Type 0
    FiredBy kind run (err _) d d' = d' ≡ d
    FiredBy kind run (ok found) d d' =
        (stats : MatchStats) × (dispatch to_string digest deliver found.def kind
            (from_run run kind now_ms) d
          ≡ some (stats, d'))

    -- The events of all candidates, one after the other.
    abbrev pub AllFired : List (Candidate Json) → (d d' : Dispatcher S) → Type 0
    AllFired [] d d' = d' ≡ d
    AllFired (c ∷ cs) d d' =
        (next : Dispatcher S) × FiredBy c.kind c.run (reads.workflow_of c.run.tenant c.run.def_name)
          d next
        × AllFired cs next d'

    fired-FiredBy :
        (kind : EventKind) (run : Run Json) (found : Result StorageError (WorkflowRecord Json F64))
        (d : Dispatcher S)
        → (d' : Dispatcher S) × (fired to_string digest deliver reads now_ms kind run found d
            ≡ some d')
          × FiredBy kind run found d d'
    fired-FiredBy kind run (err _) d = (d, refl, refl)
    fired-FiredBy kind run (ok found) d =
        let (d', e) =
          dispatch-returns to_string digest found.def kind (from_run run kind now_ms) deliver d in
        (d', rw e refl, ((match_hooks found.def kind).1, e))

    dispatch_each-AllFired :
        (cs : List (Candidate Json)) (d : Dispatcher S)
        → (d' : Dispatcher S) × (dispatch_each to_string digest deliver reads now_ms cs d ≡ some d')
          × AllFired cs d d'
    unfolding dispatch_each dispatch_event Option.bind
    dispatch_each-AllFired [] d = (d, refl, refl)
    dispatch_each-AllFired (c ∷ cs) d =
        let (next, e, one) =
          fired-FiredBy c.kind c.run (reads.workflow_of c.run.tenant c.run.def_name) d in
        let (last, f, rest) = dispatch_each-AllFired cs next in (last, rw e f, (next, one, rest))

    -- A poll that can read the runs does not panic. It dispatches an event for each of the starts and
    -- then for each of the ends, one after the other, except where the definition of the run is
    -- missing: the starts are exactly those of the runs that are running now and started after the
    -- first watermark, the ends those of the terminal runs that finished after the second, and
    -- each of the two parts is in the order of time and, at the same time, of the ids. The stats
    -- count the two parts.
    pub poll_lem :
        (runs : List (Run Json)) (w : Watcher S)
        → reads.runs_of default_filter ≡ ok runs
        → (starts ends : List (Candidate Json)) × (w' : Watcher S) × (poll to_string digest deliver
              reads now_ms w
            ≡ some (round_stats starts ends, w'))
          × AllFired (starts ++ ends) w.dispatcher w'.dispatcher
          × InOrder starts
          × InOrder ends
          × ((c : Candidate Json) → Elem c starts ↔ StartDue w.cursor.started_ms runs c)
          × ((c : Candidate Json) → Elem c ends ↔ EndDue w.cursor.finished_ms runs c)
    unfolding poll
    poll_lem runs w read =
        let starts = started_of w.cursor.started_ms runs in
        let ends = finished_of w.cursor.finished_ms runs in
        let (d, e, all_fired) = dispatch_each-AllFired (starts ++ ends) w.dispatcher in
        (
          starts,
          ends,
          record { dispatcher = d; cursor = advance w.cursor starts ends },
          rw (read, e) refl,
          all_fired,
          Sorted-InOrder starts (started_of-Sorted w.cursor.started_ms runs),
          Sorted-InOrder ends (finished_of-Sorted w.cursor.finished_ms runs),
          Elem-started_of w.cursor.started_ms runs,
          Elem-finished_of w.cursor.finished_ms runs,
        )

    -- What a poll leaves, if it cannot read the runs and if it can.
    pub poll_cases :
        (w w' : Watcher S) (stats : WatchStats)
        → poll to_string digest deliver reads now_ms w ≡ some (stats, w')
        → ((e : StorageError) × (reads.runs_of default_filter ≡ err e) × (w' ≡ w))
          ⊎ ((runs : List (Run Json)) × (reads.runs_of default_filter ≡ ok runs)
              × (w'.cursor
                  ≡ advance w.cursor
                      (started_of w.cursor.started_ms runs)
                      (finished_of w.cursor.finished_ms runs)))
    unfolding poll
    poll_cases w w' stats h = elim (Result-cases (reads.runs_of default_filter)) [
      | inl (e, failed) ↦
          let same : poll to_string digest deliver reads now_ms w ≡ some (no_round, w) =
            rw failed refl in
          inl (e, failed, ap (λ r. r.1) (some-injective (stats, w') (no_round, w) (sym h ∙ same)))
      | inr (runs, read) ↦
          let starts = started_of w.cursor.started_ms runs in
          let ends = finished_of w.cursor.finished_ms runs in
          let (d, e, all_fired) = dispatch_each-AllFired (starts ++ ends) w.dispatcher in
          let next : Watcher S = record { dispatcher = d; cursor = advance w.cursor starts ends } in
          let same : poll to_string digest deliver reads now_ms w
              ≡ some (round_stats starts ends, next) =
            rw (read, e) refl in
          inr (
            runs,
            read,
            ap (λ r. r.1.cursor)
                (some-injective (stats, w') (round_stats starts ends, next) (sym h ∙ same)),
          )
    ]

  -- The watcher does not report twice: a second poll, at any later time, of a store that answers as
  -- the first one did dispatches nothing, and leaves the watcher as it is.
  pub poll-again :
      (reads : StoreReads Json F64) (now_ms later_ms : ℤ) (w w' : Watcher S) (stats : WatchStats)
      → poll to_string digest deliver reads now_ms w ≡ some (stats, w')
      → poll to_string digest deliver reads later_ms w' ≡ some (no_round, w')
  unfolding poll advance dispatch_each
  poll-again reads now_ms later_ms w w' stats h = elim (poll_cases reads now_ms w w' stats h) [
    | inl (e, failed, same) ↦ rw failed refl
    | inr (runs, read, moved) ↦
        let starts : started_of w'.cursor.started_ms runs ≡ [] =
          rw (ap (λ c. c.started_ms) moved) (started_of-again w.cursor.started_ms runs) in
        let ends : finished_of w'.cursor.finished_ms runs ≡ [] =
          rw (ap (λ c. c.finished_ms) moved) (finished_of-again w.cursor.finished_ms runs) in
        rw (read, starts, ends) refl
  ]

  -- The watermarks never go back.
  pub cursor-grows :
      (reads : StoreReads Json F64) (now_ms : ℤ) (w w' : Watcher S) (stats : WatchStats)
      → poll to_string digest deliver reads now_ms w ≡ some (stats, w')
      → (w.cursor.started_ms ≤ℤ w'.cursor.started_ms)
        × (w.cursor.finished_ms ≤ℤ w'.cursor.finished_ms)
  unfolding advance
  cursor-grows reads now_ms w w' stats h = elim (poll_cases reads now_ms w w' stats h) [
    | inl (e, failed, same) ↦ rw same (omega arith, omega arith)
    | inr (runs, read, moved) ↦
        rw moved
          (started_of-grows w.cursor.started_ms runs, finished_of-grows w.cursor.finished_ms runs)
  ]
