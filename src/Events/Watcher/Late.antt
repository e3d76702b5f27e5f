-- ===== src/Events/Watcher/Late.antt =====
-- src/events/watcher.rs: ends of runs that are stored late, over sequences of polls.
use mathlib.Core.Option.{some-injective}
use aegis_fs.Prelude.{String, some, List, ◌≡◌, sym, ap, ◌∙◌, Elem, arith}
use aegis_fs.Prelude.Int.{ℤ, ◌≤ℤ◌, pos_part, neg_part}
use aegis_fs.Prelude.Result.{Result}
use aegis_fs.Domain.Run.{Run}
use aegis_fs.Events.Kind.{RunEventDoc}
use aegis_fs.Events.Outbox.{Delivery}
use aegis_fs.Events.Watcher.{Candidate, Watcher, WatchStats, StoreReads, finished_of, poll}
use aegis_fs.Events.Watcher.Batch.{Elem-finished_of}
use aegis_fs.Events.Watcher.Poll.{cursor-grows}

module _ {Json : Type 0} (to_string : RunEventDoc Json → String) (digest : String → String)
    (F64 : Type 0) {S : Type 0} (deliver : Delivery → S → Result String (Unit {0}) × S) where
  -- A sequence of polls, each of the store at its time.
  pub data Polls : Watcher S → Watcher S → Type 0 where
    stay : (w : Watcher S) → Polls w w
    then_poll :
        (w w' w'' : Watcher S) (reads : StoreReads Json F64) (now_ms : ℤ) (stats : WatchStats)
        → poll to_string digest deliver reads now_ms w ≡ some (stats, w')
        → Polls w' w''
        → Polls w w''

  polls-grow : (w w' : Watcher S) → Polls w w' → w.cursor.finished_ms ≤ℤ w'.cursor.finished_ms
  polls-grow w w' (stay _) = omega arith
  polls-grow w w' (then_poll _ v _ reads now_ms stats h rest) =
      let first = (cursor-grows to_string digest deliver reads now_ms w v stats h).1 in
      let others = polls-grow v w' rest in omega arith

  -- An end is missed when it is stored late: a run whose time of finishing is not past the watermark,
  -- if only because another run that finished in the same millisecond was polled before it was
  -- stored, is not among the ends of any later poll, whatever is polled in between.
  pub late_end-missed :
      (w w' : Watcher S) (runs : List (Run Json)) (r : Run Json) (at : ℤ)
      → r.finished_at_ms ≡ some at
      → at ≤ℤ w.cursor.finished_ms
      → Polls w w'
      → ¬ ((c : Candidate Json) × Elem c (finished_of w'.cursor.finished_ms runs) × (c.run ≡ r))
  late_end-missed w w' runs r at finished late polls (c, m, same) =
      let (n, kind, stored, after) = (Elem-finished_of w'.cursor.finished_ms runs c).0 m in
      let grown = polls-grow w w' polls in
      let when : c.at ≡ at =
        some-injective c.at at (sym stored ∙ ap (λ x. x.finished_at_ms) same ∙ finished) in
      absurd (omega (arith, ap pos_part when, ap neg_part when))
