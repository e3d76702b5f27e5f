-- ===== src/Scheduler/Executor/Holds.antt =====
-- src/scheduler/executor.rs: reasoning on the steps of an attempt. `Meets Q x`: the result and the
-- world in `x` satisfy `Q`.
use aegis_fs.Prelude.Result.{Result, ok, err}
use aegis_fs.Scheduler.Executor.{World, Exec, ExecutorError, ◌>>=◌, after}

abbrev pub Post : Type 0 → Type 0 → Type 0 → Type 1
Post Json F64 A = Result ExecutorError A → World Json F64 → Type 0

module _ {Json F64 A B : Type 0} where
  -- Rule for a step and what follows: what holds of the first result is what the rest starts from.
  pub bind-Holds :
      (m : Exec Json F64 A)
      → (f : A → Exec Json F64 B) → (P : Post Json F64 A) → (Q : Post Json F64 B)
      → (w : World Json F64) → P (m w).0 (m w).1
      → ((a : A) (w' : World Json F64) → P (ok a) w' → Q (f a w').0 (f a w').1)
      → ((e : ExecutorError) (w' : World Json F64) → P (err e) w' → Q (err e) w')
      → Q ((m >>= f) w).0 ((m >>= f) w).1
  unfolding ◌>>=◌
  bind-Holds m f P Q w p hf he = by_result (m w).0 (m w).1 p hf he
    where
      by_result :
          (r : Result ExecutorError A)
          → (w' : World Json F64) → P r w'
          → ((a : A) (w' : World Json F64) → P (ok a) w' → Q (f a w').0 (f a w').1)
          → ((e : ExecutorError) (w' : World Json F64) → P (err e) w' → Q (err e) w')
          → Q (after r f w').0 (after r f w').1
      by_result (ok a) w' p hf he = hf a w' p
      by_result (err e) w' p hf he = he e w' p
