-- ===== src/Examples/Throttles.antt =====
-- Two tenants that share a queue.
use aegis_fs.Prelude.{ℕ, ◌≤◌, String, true, false, List, [], ◌∷◌, ◌≡◌, refl, arith}
use aegis_fs.Prelude.BTree
use aegis_fs.Prelude.Eq.{string_eq}
use aegis_fs.Prelude.Map.{lookup}
use aegis_fs.Scheduler.Throttle.Limiter
use aegis_fs.Scheduler.Throttle.Limiter.{Event, enter, load, exchange, drop, take_steps, limit_of}
use aegis_fs.Scheduler.Throttle.Limiter.Bounded.{
  IsBounded, holders, take_steps-IsBounded, new-IsBounded,
}
use aegis_fs.Scheduler.Throttle.Fair.{FairShare, new, push}
use aegis_fs.Scheduler.Throttle.Fair.Queues.{IsFair, push-IsFair}
use aegis_fs.Scheduler.Throttle.Fair.Turns.{FairOp, pushes, pops, has_turn, fair_turn}

new-IsFair : IsFair (new {T = ℕ})
unfolding lookup
new-IsFair = record { distinct = tt; same = λ t. refl; full = λ t q h. absurd (cc) }

abbrev shared : FairShare ℕ
shared = push "small" 7 (push "big" 2 (push "big" 1 new))

shared-IsFair : IsFair shared
shared-IsFair =
    push-IsFair "small" 7 (push "big" 2 (push "big" 1 new))
      (push-IsFair "big" 2 (push "big" 1 new) (push-IsFair "big" 1 new new-IsFair))

abbrev busy : List (FairOp ℕ)
busy = pushes "big" 3 ∷ pops ∷ pushes "big" 4 ∷ pops ∷ []

fair_turn_example : has_turn "small" busy shared ≡ true
unfolding push lookup BTree.insert
fair_turn_example = fair_turn busy ("big" ∷ []) [] "small" shared shared-IsFair refl (omega arith)

-- Two threads read the same count; the exchange of one of them fails.
abbrev race : List Event
race =
    enter "w1" "t"
    ∷ enter "w2" "t"
    ∷ load "w1"
    ∷ load "w2"
    ∷ exchange "w2" false
    ∷ exchange "w1" false
    ∷ exchange "w1" false
    ∷ drop "w2"
    ∷ []

take_steps-IsBounded_example :
    IsBounded (take_steps race (Limiter.new 1))
    × ((key : String)
        → holders key (take_steps race (Limiter.new 1))
          ≤ limit_of key (take_steps race (Limiter.new 1)))
take_steps-IsBounded_example =
    take_steps-IsBounded race (Limiter.new 1) (new-IsBounded 1 (omega arith))
