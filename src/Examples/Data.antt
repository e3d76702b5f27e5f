-- ===== src/Examples/Data.antt =====
-- The data of the examples. Numbers stand for JSON values, and for `f64`, which is a parameter.
use aegis_fs.Prelude.{
  ℕ, suc, ◌+◌, ◌-◌, ◌*◌, ◌^◌, min, String, true, false, none, some, List, [], ◌∷◌, leb, ltb, arith,
}
use aegis_fs.Prelude.Eq.{string_eq}
use aegis_fs.Prelude.Float.{Float}
use aegis_fs.Prelude.Int.{pos}
use aegis_fs.Domain.Priority
use aegis_fs.Domain.RetryPolicy.{RetryPolicy, no_jitter, exponential}
use aegis_fs.Domain.Run.{Run, TaskRun}
use aegis_fs.Domain.RunStatus
use aegis_fs.Domain.TaskStatus
use aegis_fs.Domain.Workflow.{TaskSpec, WorkflowDef}
use aegis_fs.Persistence.Store.{MemoryState}
use aegis_fs.Persistence.Model.{QueueEntry}
use aegis_fs.Plugins.Handler.{TaskContext, Handled, returned}
use aegis_fs.Retry.Random.{Random}
use aegis_fs.Scheduler.Executor.{Env, World}

abbrev pub whole : Float
whole = record {
  F64 = ℕ;
  one = 1;
  two = 2;
  le_one = λ x. leb x 1;
  lt_one = λ x. ltb x 1;
  ge_zero = λ x. true;
  is_finite = λ x. true;
  of_nat = λ n. n;
  sub = λ a b. a - b;
  mul = λ a b. a * b;
  powf = λ a b. a ^ b;
  to_u64 = λ x. min x (2 ^ 64 - 1);
}

abbrev pub counter : Random
counter = record {
  Rng = ℕ;
  seed_from_u64 = λ seed. seed;
  gen_range = λ n rng. (min n rng, suc rng);
  gen_range-le = λ n rng. omega arith;
}

abbrev pub steady : RetryPolicy ℕ
steady = record {
  max_attempts = 3;
  base_delay_ms = 100;
  max_delay_ms = 1_000;
  multiplier = 2;
  backoff = exponential;
  jitter = no_jitter;
  retryable_only = false;
}

abbrev pub task : String → List String → TaskSpec ℕ ℕ
task name depends_on = record {
  name = name;
  handler = "echo";
  input = 7;
  depends_on = depends_on;
  timeout_ms = none;
  retry = none;
  meta = [];
}

abbrev pub pipeline : WorkflowDef ℕ ℕ
pipeline = record {
  id = "wf_1";
  tenant = "t";
  name = "pipeline";
  version = 4;
  description = "";
  tasks = task "a" [] ∷ task "b" ("a" ∷ []) ∷ [];
  timeout_ms = 0;
  retry = steady;
  default_priority = Priority.default;
  hooks = record { on_start = []; on_success = []; on_failure = []; on_cancel = [] };
  tags = [];
  spec_version = 1;
  created_at_ms = pos 0;
  updated_at_ms = pos 0;
}

abbrev pub run_1 : Run ℕ
run_1 = record {
  id = "r1";
  tenant = "t";
  def_name = "pipeline";
  def_version = 4;
  input = 0;
  status = RunStatus.running;
  attempts = 0;
  next_attempt_at_ms = none;
  deadline_at_ms = none;
  started_at_ms = none;
  finished_at_ms = none;
  error = none;
  output = none;
  tags = [];
  created_at_ms = pos 5;
  run_number = 1;
}

abbrev pub running_a : TaskRun ℕ
running_a = record {
  id = "tr_a";
  run_id = "r1";
  task_name = "a";
  status = TaskStatus.running;
  attempts = 1;
  last_error = none;
  started_at_ms = some (pos 90);
  finished_at_ms = none;
  output = none;
}

abbrev pub entry_1 : QueueEntry
entry_1 = record {
  run_id = "r1";
  token = "";
  due_at_ms = pos 10;
  lease_until_ms = none;
  claimed_by = none;
}

abbrev pub store : MemoryState ℕ ℕ
store = record {
  runs = ("r1", run_1) ∷ [];
  task_runs = [];
  defs = (("t", "pipeline"), record { def = pipeline }) ∷ [];
  queue = ("r1", entry_1) ∷ [];
  run_numbers = [];
}

-- The handler returns its input.
abbrev pub echo : TaskContext ℕ → World ℕ ℕ → Handled ℕ × World ℕ ℕ
echo ctx w = (returned ctx.input, w)

abbrev pub env : Env ℕ ℕ
env = record { clock = λ n. pos (100 + n); registry = λ id. some echo; seed = 3 }

abbrev pub world : World ℕ ℕ
world = record { store = store; ticks = 0 }

-- The store after a handler of the task `a` panicked.
abbrev pub after_panic : World ℕ ℕ
after_panic = record { store = record store { task_runs = ("tr_a", running_a) ∷ [] }; ticks = 0 }
