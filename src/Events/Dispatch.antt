-- ===== src/Events/Dispatch.antt =====
-- src/events/dispatch.rs: which hooks of a definition an event fires, and their deliveries. `None` of
-- the model is a panic of an `expect`. The sink is a parameter with a state; `LoggingSink` and
-- `HttpSink` are I/O and not modelled.
pub mod Matched
pub mod Attempts
use Prim.Native.String.{len, slice}
use mathlib.Core.Option
use text.Mathlib.Text.{starts_with}
use aegis_fs.Prelude.{
  ℕ, zero, suc, ◌+◌, ◌%◌, ◌^◌, String, Bool, true, false, not, ◌&&◌, ◌||◌, Option, none, some, List,
  [], ◌∷◌, ◌++◌, length, count_if, filter, if◌then◌else◌, ◌≡◌, refl, ap, arith,
}
use aegis_fs.Prelude.Eq.{◌==◌, string_eq}
use aegis_fs.Prelude.Map.{is_some}
use aegis_fs.Prelude.Result.{Result, ok, err}
use aegis_fs.Domain.Workflow.{HookSpec, Hooks, WorkflowDef}
use aegis_fs.Events.Kind.{EventKind, RunEventDoc, code, delivery_id}
use aegis_fs.Events.Outbox.{Delivery}

pub record MatchStats : Type 0 where
  pub matched : ℕ
  pub filtered : ℕ
  pub no_url : ℕ

abbrev pub no_stats : MatchStats
no_stats = record { matched = 0; filtered = 0; no_url = 0 }

-- `str::trim_start_matches`: the prefix is taken off as often as it stands there.
unfoldable pub trim_start_matches : ℕ → String → String → String
trim_start_matches zero prefix s = s
trim_start_matches (suc fuel) prefix s =
    let rest = trim_start_matches fuel prefix (slice s (len prefix) (len s)) in
    if starts_with s prefix then rest else s

unfoldable pub short_code : EventKind → String
unfolding code trim_start_matches
short_code kind = trim_start_matches (len (code kind)) "run." (code kind)

abbrev pub slice_for : Hooks → EventKind → List HookSpec
slice_for hooks EventKind.run_started = hooks.on_start
slice_for hooks EventKind.run_succeeded = hooks.on_success
slice_for hooks EventKind.run_failed = hooks.on_failure
slice_for hooks EventKind.run_timed_out = hooks.on_failure
slice_for hooks EventKind.run_cancelled = hooks.on_cancel

-- The guard of the first arm.
abbrev pub filtered_out : EventKind → Option String → Bool
filtered_out kind none = false
filtered_out kind (some f) = not (f == code kind) && not (f == short_code kind)

unfoldable pub match_loop :
    EventKind → List HookSpec → List HookSpec → MatchStats → List HookSpec × MatchStats
match_loop kind [] matched stats = (matched, stats)
match_loop kind (spec ∷ specs) matched stats =
    if filtered_out kind spec.event_filter
    then match_loop kind specs matched (record stats { filtered = suc stats.filtered })
    else if not (is_some spec.webhook_url)
    then match_loop kind specs matched (record stats { no_url = suc stats.no_url })
    else match_loop kind specs (matched ++ (spec ∷ []))
        (record stats { matched = suc stats.matched })

-- `Dispatcher`: the state of its sink, and the counter, a `u64`.
pub record Dispatcher (S : Type 0) : Type 0 where
  pub sink : S
  pub delivered : ℕ

module _ {S : Type 0} (deliver : Delivery → S → Result String (Unit {0}) × S) where
  abbrev counted : Result String (Unit {0}) → ℕ → ℕ
  counted (ok _) delivered = (delivered + 1) % 2 ^ 64
  counted (err _) delivered = delivered

  unfoldable pub deliver_all : List Delivery → Dispatcher S → Dispatcher S
  deliver_all [] w = w
  deliver_all (d ∷ ds) w =
      let (answer, sink) = deliver d w.sink in
      deliver_all ds (record { sink = sink; delivered = counted answer w.delivered })

unfoldable pub match_hooks :
    {Json F64 : Type 0} → WorkflowDef Json F64 → EventKind → List HookSpec × MatchStats
unfolding match_loop
match_hooks def kind = match_loop kind (slice_for def.hooks kind) [] no_stats

module _ {Json : Type 0} (to_string : RunEventDoc Json → String) (digest : String → String) where
  abbrev pub delivery_to : EventKind → RunEventDoc Json → HookSpec → String → Delivery
  delivery_to kind ev spec url = record {
    id = delivery_id digest ev.run_id kind ev.tenant ev.def_name;
    url = url;
    headers = spec.headers;
    body_json = to_string ev;
  }

  -- `as_ref().expect(..)`, then the `map` over the matched specs.
  unfoldable pub deliveries_of :
      EventKind → RunEventDoc Json → List HookSpec → Option (List Delivery)
  unfolding delivery_id
  deliveries_of kind ev [] = some []
  deliveries_of kind ev (spec ∷ specs) = elim spec.webhook_url [
    | none ↦ none
    | some url ↦ Option.map (λ ds. delivery_to kind ev spec url ∷ ds) (deliveries_of kind ev specs)
  ]

  unfoldable pub build_deliveries :
      {F64 : Type 0}
      → WorkflowDef Json F64
      → EventKind
      → RunEventDoc Json
      → Option (List Delivery × MatchStats)
  unfolding match_hooks deliveries_of
  build_deliveries def kind ev =
      let (matched, stats) = match_hooks def kind in
      Option.map (λ ds. (ds, stats)) (deliveries_of kind ev matched)

  unfoldable pub dispatch :
      {F64 S : Type 0}
      → (Delivery → S → Result String (Unit {0}) × S)
      → WorkflowDef Json F64
      → EventKind
      → RunEventDoc Json
      → Dispatcher S
      → Option (MatchStats × Dispatcher S)
  unfolding build_deliveries deliver_all
  dispatch deliver def kind ev w =
      Option.map (λ built. (built.1, deliver_all deliver built.0 w)) (build_deliveries def kind ev)

-- `RecordingSink`: the deliveries so far.
unfoldable pub record_delivery : Delivery → List Delivery → Result String (Unit {0}) × List Delivery
record_delivery d recorded = (ok tt, recorded ++ (d ∷ []))
