-- ===== src/Scheduler/Throttle/Limiter/Bounded.antt =====
-- src/scheduler/throttle.rs: the number of permits that are held.
use aegis_fs.Prelude.{
  ℕ, ◌+◌, ◌-◌, ◌%◌, ◌^◌, ◌≤◌, ◌<◌, String, Bool, false, not, ◌&&◌, some, List, [], ◌∷◌, count_if,
  leb, eqb, ◌≡◌, refl, arith, ap, ◌∙◌, Option-cases, Bool-cases, inl, inr, if◌then◌else◌,
}
use aegis_fs.Prelude.Counts.{one_if, count-insert_new, count-insert}
use aegis_fs.Prelude.Eq.{string_eq, ◌==◌, eq_iff, eq_refl}
use aegis_fs.Prelude.Map.{lookup, values, lookup-insert}
use aegis_fs.Domain.Workflow.{unwrap_or}
use aegis_fs.Scheduler.Throttle.Limiter.{
  new, concurrency_limit_exceeded, Phase, outside, entered, trying, holding, refused, Limiter,
  limit_of, active_count, moved, counted, Event, enter, load, exchange, drop, enters, loads,
  exchanges, drops, phase_of, take_step, take_steps,
}

abbrev pub holds : String → Phase → Bool
holds key p = elim p [ holding k ↦ k == key | _ ↦ false ]

-- How many threads hold a permit of the key.
abbrev pub holders : String → Limiter → ℕ
holders key s = count_if (holds key) (values s.threads)

-- The limit that a thread has read.
abbrev pub Reads : Limiter → Phase → Type 0
Reads s (entered key limit) = limit ≡ limit_of key s
Reads s (trying key limit current) = limit ≡ limit_of key s
Reads s _ = Unit

pub record IsBounded (s : Limiter) : Type 0 where
  pub exact : (key : String) → active_count key s ≡ holders key s
  pub within : (key : String) → active_count key s ≤ limit_of key s
  pub sized : (key : String) → limit_of key s < 2 ^ 64
  pub reads : (thread : String) (p : Phase) → lookup thread s.threads ≡ some p → Reads s p

-- The count of the holders, after a thread has moved.
holders-moved :
    (key thread : String) (p : Phase) (s : Limiter)
    → holders key (moved thread p s) + one_if (holds key (phase_of thread s))
      ≡ holders key s + one_if (holds key p)
holders-moved key thread p s = elim (Option-cases (lookup thread s.threads)) [
  | inl e ↦ ground (arith, e, count-insert_new (holds key) thread p s.threads e)
  | inr (old, e) ↦ ground (arith, e, count-insert (holds key) thread p old s.threads e)
]

active_count-counted :
    (key other : String) (n : ℕ) (s : Limiter)
    → active_count other (counted key n s) ≡ (if key == other then n else active_count other s)
active_count-counted key other n s =
    ap (λ o. unwrap_or o 0) (lookup-insert key other n s.counters) ∙ ground arith

Reads-moved :
    (thread : String) (p : Phase) (key : String) (n : ℕ) (s : Limiter) (q : Phase)
    → Reads s q
    → Reads (moved thread p (counted key n s)) q
Reads-moved thread p key n s outside r = r
Reads-moved thread p key n s (entered k limit) r = r
Reads-moved thread p key n s (trying k limit current) r = r
Reads-moved thread p key n s (holding k) r = r
Reads-moved thread p key n s (refused e) r = r

Reads-same :
    (thread : String) (p : Phase) (s : Limiter) (q : Phase) → Reads s q → Reads (moved thread p s) q
Reads-same thread p s outside r = r
Reads-same thread p s (entered k limit) r = r
Reads-same thread p s (trying k limit current) r = r
Reads-same thread p s (holding k) r = r
Reads-same thread p s (refused e) r = r

some_same : {A : Type 0} {a b : A} → some a ≡ some b → a ≡ b
some_same h = cc

-- A step that moves a thread and sets the counter of a key.
step-IsBounded :
    (thread key : String) (p : Phase) (n : ℕ) (s : Limiter)
    → IsBounded s
    → n ≤ limit_of key s
    → Reads s p
    → n + one_if (holds key (phase_of thread s)) ≡ active_count key s + one_if (holds key p)
    → ((other : String) → (key == other) ≡ false → holds other (phase_of thread s) ≡ holds other p)
    → IsBounded (moved thread p (counted key n s))
step-IsBounded thread key p n s v le r e o = record {
  exact = λ k. elim (Bool-cases (key == k)) [
    | inl q ↦
        let same = (eq_iff key k).0 q in
        rw (← same) (
          active_count-counted key key n s
          ∙ ground
              (arith, eq_refl key, v.exact key, e, holders-moved key thread p (counted key n s)))
    | inr q ↦
        active_count-counted key k n s
        ∙ ground (arith, q, v.exact k, o k q, holders-moved k thread p (counted key n s))
  ];
  within = λ k. ground (arith, le, v.within k, active_count-counted key k n s, eq_iff key k);
  sized = λ k. v.sized k;
  reads = λ t q h. elim (Bool-cases (thread == t)) [
    | inl m ↦
        let same : p ≡ q = some_same (ground (arith, m, lookup-insert thread t p s.threads) ∙ h) in
        Reads-moved thread p key n s q (rw (← same) r)
    | inr m ↦
        Reads-moved thread p key n s q
          (v.reads t q (ground (arith, m, h, lookup-insert thread t p s.threads)))
  ];
}

-- A step that moves a thread that holds nothing before and after.
move-IsBounded :
    (thread : String) (p : Phase) (s : Limiter)
    → IsBounded s
    → Reads s p
    → ((key : String) → holds key (phase_of thread s) ≡ holds key p)
    → IsBounded (moved thread p s)
move-IsBounded thread p s v r o = record {
  exact = λ k. v.exact k ∙ ground (arith, o k, holders-moved k thread p s);
  within = λ k. v.within k;
  sized = λ k. v.sized k;
  reads = λ t q h. elim (Bool-cases (thread == t)) [
    | inl m ↦
        let same : p ≡ q = some_same (ground (arith, m, lookup-insert thread t p s.threads) ∙ h) in
        Reads-same thread p s q (rw (← same) r)
    | inr m ↦
        Reads-same thread p s q
          (v.reads t q (ground (arith, m, h, lookup-insert thread t p s.threads)))
  ];
}

phase-Reads : (thread : String) (s : Limiter) → IsBounded s → Reads s (phase_of thread s)
phase-Reads thread s v = elim (Option-cases (lookup thread s.threads)) [
  | inl e ↦ rw e tt
  | inr (p, e) ↦ rw e (v.reads thread p e)
]

enters-IsBounded :
    (thread key : String) (p : Phase) (s : Limiter)
    → phase_of thread s ≡ p
    → IsBounded s
    → IsBounded (enters thread key p s)
enters-IsBounded thread key outside s e v =
    move-IsBounded thread (entered key (limit_of key s)) s v refl (λ k. rw e refl)
enters-IsBounded thread key (refused x) s e v =
    move-IsBounded thread (entered key (limit_of key s)) s v refl (λ k. rw e refl)
enters-IsBounded thread key (entered k l) s e v = v
enters-IsBounded thread key (trying k l c) s e v = v
enters-IsBounded thread key (holding k) s e v = v

loads-IsBounded :
    (thread : String) (p : Phase) (s : Limiter)
    → phase_of thread s ≡ p
    → IsBounded s
    → IsBounded (loads thread p s)
loads-IsBounded thread (entered key limit) s e v =
    step-IsBounded thread key (trying key limit (active_count key s)) (active_count key s) s v
      (v.within key) (rw e at (phase-Reads thread s v)) (rw e refl) (λ k q. rw e refl)
loads-IsBounded thread outside s e v = v
loads-IsBounded thread (refused x) s e v = v
loads-IsBounded thread (trying k l c) s e v = v
loads-IsBounded thread (holding k) s e v = v

exchanges-IsBounded :
    (thread : String) (spurious : Bool) (p : Phase) (s : Limiter)
    → phase_of thread s ≡ p
    → IsBounded s
    → IsBounded (exchanges thread spurious p s)
exchanges-IsBounded thread spurious (trying key limit current) s e v =
    let read : limit ≡ limit_of key s = rw e at (phase-Reads thread s v) in
    elim (Bool-cases (leb limit current)) [
      | inl f ↦ rw f (
          move-IsBounded thread (refused (concurrency_limit_exceeded key current limit)) s v tt
            (λ k. rw e refl))
      | inr f ↦ elim (Bool-cases (eqb (active_count key s) current && not spurious)) [
        | inr g ↦
            rw (f, g)
              (move-IsBounded thread (trying key limit (active_count key s)) s v read
                (λ k. rw e refl))
        | inl g ↦
            rw (f, g)
              (step-IsBounded thread key (holding key) ((current + 1) % 2 ^ 64) s v
                (let size = v.sized key in ground arith) tt
                (rw e (let size = v.sized key in ground (arith, eq_refl key)))
                (λ k q. rw e (ground (arith, q))))
      ]
    ]
exchanges-IsBounded thread spurious outside s e v = v
exchanges-IsBounded thread spurious (refused x) s e v = v
exchanges-IsBounded thread spurious (entered k l) s e v = v
exchanges-IsBounded thread spurious (holding k) s e v = v

drops-IsBounded :
    (thread : String) (p : Phase) (s : Limiter)
    → phase_of thread s ≡ p
    → IsBounded s
    → IsBounded (drops thread p s)
drops-IsBounded thread (holding key) s e v =
    let some_active : 1 ≤ active_count key s =
      ground (arith, holders-moved key thread outside s, e, v.exact key, eq_refl key) in
    let le = v.within key in
    let size = v.sized key in
    let n : (active_count key s + (2 ^ 64 - 1)) % 2 ^ 64 + 1 ≡ active_count key s = omega arith in
    step-IsBounded thread key outside ((active_count key s + (2 ^ 64 - 1)) % 2 ^ 64) s v
      (omega arith) tt (rw e (ground (arith, n, eq_refl key))) (λ k q. rw e (ground (arith, q)))
drops-IsBounded thread outside s e v = v
drops-IsBounded thread (refused x) s e v = v
drops-IsBounded thread (entered k l) s e v = v
drops-IsBounded thread (trying k l c) s e v = v

take_step-IsBounded : (event : Event) (s : Limiter) → IsBounded s → IsBounded (take_step event s)
unfolding take_step
take_step-IsBounded (enter thread key) s v =
    enters-IsBounded thread key (phase_of thread s) s refl v
take_step-IsBounded (load thread) s v = loads-IsBounded thread (phase_of thread s) s refl v
take_step-IsBounded (exchange thread spurious) s v =
    exchanges-IsBounded thread spurious (phase_of thread s) s refl v
take_step-IsBounded (drop thread) s v = drops-IsBounded thread (phase_of thread s) s refl v

-- Whatever steps any threads take, in any order and with any spurious failures, while the limits are
-- not changed: the counter of a key is the number of threads that hold a permit of it, and this
-- number is within the limit of the key. This holds from a limiter where it holds, with limits of 64
-- bits and threads in their loop that have read the present limit, such as one without threads.
pub take_steps-IsBounded :
    (events : List Event) (s : Limiter)
    → IsBounded s
    → IsBounded (take_steps events s)
      × ((key : String) → holders key (take_steps events s) ≤ limit_of key (take_steps events s))
unfolding take_steps
take_steps-IsBounded [] s v = (v, λ key. rw (← v.exact key) (v.within key))
take_steps-IsBounded (e ∷ es) s v =
    take_steps-IsBounded es (take_step e s) (take_step-IsBounded e s v)

pub new-IsBounded : (default_limit : ℕ) → default_limit < 2 ^ 64 → IsBounded (new default_limit)
unfolding lookup
new-IsBounded n h = record {
  exact = λ key. refl;
  within = λ key. omega arith;
  sized = λ key. ground arith;
  reads = λ t p e. absurd (cc);
}
