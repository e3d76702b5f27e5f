-- ===== src/Scheduler/Throttle/Limiter.antt =====
-- src/scheduler/throttle.rs: `ConcurrencyLimiter`, as the atomic steps of threads that share it. The
-- counters are `usize`, of 64 bits; a counter that was never used reads as 0.
pub mod Bounded
use aegis_fs.Prelude.{
  ℕ, ◌+◌, ◌-◌, ◌%◌, ◌^◌, max, String, Bool, true, false, not, ◌&&◌, Option, none, some, List, [],
  ◌∷◌, leb, eqb, if◌then◌else◌,
}
use aegis_fs.Prelude.Eq.{◌==◌, string_eq}
use aegis_fs.Prelude.Map.{Map, lookup, insert}
use aegis_fs.Domain.Workflow.{unwrap_or}

pub data ThrottleError : Type 0 where
  concurrency_limit_exceeded : (key : String) (active limit : ℕ) → ThrottleError
  rate_limit_exceeded : (key : String) (retry_after_ms : ℕ) → ThrottleError

-- Where a thread stands: outside, in `try_acquire` after it has read the limit, in its loop with the
-- count it has read last, with its permit, or with an error.
pub data Phase : Type 0 where
  outside : Phase
  entered : (key : String) (limit : ℕ) → Phase
  trying : (key : String) (limit current : ℕ) → Phase
  holding : (key : String) → Phase
  refused : ThrottleError → Phase

pub record Limiter : Type 0 where
  pub limits : Map String ℕ
  pub default_limit : ℕ
  pub counters : Map String ℕ
  pub threads : Map String Phase

abbrev pub new : ℕ → Limiter
new default_limit = record {
  limits = [];
  default_limit = max default_limit 1;
  counters = [];
  threads = [];
}

abbrev pub set_limit : String → ℕ → Limiter → Limiter
set_limit key limit s = record s { limits = insert key (max limit 1) s.limits }

abbrev pub limit_of : String → Limiter → ℕ
limit_of key s = unwrap_or (lookup key s.limits) s.default_limit

abbrev pub active_count : String → Limiter → ℕ
active_count key s = unwrap_or (lookup key s.counters) 0

abbrev pub moved : (thread : String) → Phase → Limiter → Limiter
moved thread phase s = record s { threads = insert thread phase s.threads }

abbrev pub counted : String → ℕ → Limiter → Limiter
counted key n s = record s { counters = insert key n s.counters }

-- The steps of a thread. `exchange` is a round of the loop; the weak exchange may fail for no reason.
pub data Event : Type 0 where
  enter : (thread key : String) → Event
  load : (thread : String) → Event
  exchange : (thread : String) (spurious : Bool) → Event
  drop : (thread : String) → Event

abbrev pub enters : (thread key : String) → Phase → Limiter → Limiter
enters thread key outside s = moved thread (entered key (limit_of key s)) s
enters thread key (refused _) s = moved thread (entered key (limit_of key s)) s
enters thread key _ s = s

abbrev pub loads : (thread : String) → Phase → Limiter → Limiter
loads thread (entered key limit) s =
    moved thread (trying key limit (active_count key s)) (counted key (active_count key s) s)
loads thread _ s = s

abbrev pub exchanges : (thread : String) (spurious : Bool) → Phase → Limiter → Limiter
exchanges thread spurious (trying key limit current) s =
    if leb limit current
    then moved thread (refused (concurrency_limit_exceeded key current limit)) s
    else if eqb (active_count key s) current && not spurious
    then moved thread (holding key) (counted key ((current + 1) % 2 ^ 64) s)
    else moved thread (trying key limit (active_count key s)) s
exchanges thread spurious _ s = s

-- The end of a permit: `fetch_sub` wraps around.
abbrev pub drops : (thread : String) → Phase → Limiter → Limiter
drops thread (holding key) s =
    moved thread outside (counted key ((active_count key s + (2 ^ 64 - 1)) % 2 ^ 64) s)
drops thread _ s = s

abbrev pub phase_of : String → Limiter → Phase
phase_of thread s = unwrap_or (lookup thread s.threads) outside

-- A step that the thread cannot take changes nothing.
unfoldable pub take_step : Event → Limiter → Limiter
take_step (enter thread key) s = enters thread key (phase_of thread s) s
take_step (load thread) s = loads thread (phase_of thread s) s
take_step (exchange thread spurious) s = exchanges thread spurious (phase_of thread s) s
take_step (drop thread) s = drops thread (phase_of thread s) s

unfoldable pub take_steps : List Event → Limiter → Limiter
unfolding take_step
take_steps [] s = s
take_steps (e ∷ es) s = take_steps es (take_step e s)
