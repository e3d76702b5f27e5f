-- ===== src/Domain/Validation.antt =====
-- src/domain/validation.rs: the checks of a workflow definition and of the input of a run. Parameters are
-- the parser of URLs (`url`), the texts of `{:?}` and of policy errors, and the length of a number.
pub mod Conditions
pub mod Sound
pub mod Accepted
pub mod Input
use Prim.Native.Nat.{max}
use Prim.Native.Char.{code}
use Prim.Native.String.{String, [], ◌∷◌, len, count}
use mathlib.Core.List
use aegis_fs.Prelude.{
  ℕ, ◌+◌, ◌^◌, Bool, true, false, not, ◌&&◌, ◌||◌, Option, none, some, List, length, ltb, leb, eqb,
  if◌then◌else◌,
}
use aegis_fs.Prelude.BTree
use aegis_fs.Prelude.Eq.{◌==◌, string_eq}
use aegis_fs.Prelude.Float.{Float}
use aegis_fs.Prelude.Map.{contains_key}
use aegis_fs.Prelude.Result.{Result, ok, err, ◌>>=◌}
use aegis_fs.Prelude.Text.{◌<>◌}
use aegis_fs.Domain.Dag.{NameSet, validate_edges}
use aegis_fs.Domain.Error.{
  DomainError, invalid_definition, duplicate_task_name, invalid_name, invalid_policy, empty_tasks,
  too_many_tasks, zero_timeout, description_too_long, input_too_large, input_too_deep,
}
use aegis_fs.Domain.RetryPolicy.{RetryPolicy, PolicyError, validate}
use aegis_fs.Domain.Workflow.{TaskSpec, WorkflowDef, HookSpec, all_hooks, max_tasks, unwrap_or}
use aegis_fs.Engine.Value.{
  Json, null, bool, number, string, array, object, Items, nil, cons, Fields, end, field,
}

abbrev pub is_lowercase : ℕ → Bool
is_lowercase c = leb 97 c && leb c 122

abbrev pub is_digit : ℕ → Bool
is_digit c = leb 48 c && leb c 57

abbrev pub is_name_char : ℕ → Bool
is_name_char c = is_lowercase c || is_digit c || eqb c 45

unfoldable pub all_chars : (ℕ → Bool) → String → Bool
all_chars p [] = true
all_chars p (c ∷ s) = p (code c) && all_chars p s

abbrev pub name_shape : String → Bool
name_shape [] = false
name_shape (c ∷ s) = is_lowercase (code c) && all_chars is_name_char s

abbrev pub is_valid_name : String → Bool
is_valid_name name = not (name == "" || ltb 64 (len name)) && name_shape name

abbrev pub max_task_name_len : ℕ
max_task_name_len = 64

abbrev pub sanitize_description : String → Result DomainError (Unit {0})
sanitize_description d = if ltb 512 (count d) then err description_too_long else ok tt

abbrev pub guard : Bool → DomainError → Result DomainError (Unit {0})
guard b e = if b then err e else ok tt

pub record Url : Type 0 where
  pub scheme : String
  pub host_str : Option String

abbrev pub host_check : Option String → Result String (Unit {0})
host_check none = err "webhook url has no host"
host_check (some _) = ok tt

abbrev pub is_zero : Option ℕ → Bool
is_zero none = false
is_zero (some n) = eqb n 0

abbrev pub as_definition : Result String (Unit {0}) → Result DomainError (Unit {0})
as_definition (ok _) = ok tt
as_definition (err e) = err (invalid_definition e)

module _ (debug : String → String) (parse_url : String → Result String Url) where
  abbrev pub scheme_check : Url → Result String (Unit {0})
  scheme_check url =
      if url.scheme == "http" || url.scheme == "https"
      then host_check url.host_str
      else err ("webhook url scheme must be http/https, got " <> debug url.scheme)

  abbrev pub url_checked : Result String Url → Result String (Unit {0})
  url_checked (err e) = err ("webhook url is not parseable: " <> e)
  url_checked (ok url) = scheme_check url

  abbrev pub validate_webhook_url : String → Result String (Unit {0})
  validate_webhook_url s = url_checked (parse_url s)

  abbrev pub hook_checked : Option String → Result DomainError (Unit {0})
  hook_checked none = ok tt
  hook_checked (some url) = as_definition (validate_webhook_url url)

  unfoldable pub check_hooks : List HookSpec → Result DomainError (Unit {0})
  check_hooks List.[] = ok tt
  check_hooks (List.◌∷◌ h hs) = hook_checked h.webhook_url >>= λ _. check_hooks hs

module _ (float : Float) (policy_text : PolicyError float.F64 → String) where
  open float use {F64}

  abbrev pub policy_checked : Result (PolicyError F64) (Unit {0}) → Result DomainError (Unit {0})
  policy_checked (ok _) = ok tt
  policy_checked (err e) = err (invalid_policy (policy_text e))

  abbrev pub retry_checked : Option (RetryPolicy F64) → Result DomainError (Unit {0})
  retry_checked none = ok tt
  retry_checked (some p) = policy_checked (validate float p)

module _ {Json F64 : Type 0} where
  abbrev pub is_empty_list : List (TaskSpec Json F64) → Bool
  is_empty_list List.[] = true
  is_empty_list (List.◌∷◌ _ _) = false

  -- The loop over the tasks with the set of the names that were seen.
  unfoldable pub check_unique : NameSet → List (TaskSpec Json F64) → Result DomainError (Unit {0})
  check_unique seen List.[] = ok tt
  check_unique seen (List.◌∷◌ t ts) =
      let rest = check_unique (BTree.insert t.name tt seen) ts in
      if contains_key t.name seen then err (duplicate_task_name t.name) else rest

module _ (float : Float) (debug : String → String) (policy_text : PolicyError float.F64 → String)
    (parse_url : String → Result String Url) {Json : Type 0} where
  open float use {F64}

  unfoldable pub validate_task_basics : TaskSpec Json F64 → Result DomainError (Unit {0})
  validate_task_basics t = guard (is_zero t.timeout_ms) zero_timeout >>= λ _.
      guard (ltb max_task_name_len (len t.name))
        (invalid_definition ("task name " <> debug t.name <> " exceeds 64 characters"))
      >>= λ _. retry_checked float policy_text t.retry

  unfoldable pub check_tasks : List (TaskSpec Json F64) → Result DomainError (Unit {0})
  check_tasks List.[] = ok tt
  check_tasks (List.◌∷◌ t ts) = validate_task_basics t >>= λ _. check_tasks ts

  abbrev pub validate_workflow_policy : WorkflowDef Json F64 → Result DomainError (Unit {0})
  validate_workflow_policy def = policy_checked float policy_text (validate float def.retry)

  -- The checks in front of the edges, and those behind them.
  unfoldable pub first_checks : WorkflowDef Json F64 → Result DomainError (Unit {0})
  first_checks def = guard (not (is_valid_name def.name)) (invalid_name def.name) >>= λ _.
      (sanitize_description def.description >>= λ _.
      (guard (is_empty_list def.tasks) empty_tasks >>= λ _.
      (guard (ltb max_tasks (length def.tasks)) too_many_tasks >>= λ _.
      (check_unique List.[] def.tasks >>= λ _. check_tasks def.tasks))))

  unfoldable pub last_checks : WorkflowDef Json F64 → Result DomainError (Unit {0})
  last_checks def = guard (eqb def.timeout_ms 0) zero_timeout >>= λ _.
      check_hooks debug parse_url (all_hooks def.hooks)

  abbrev pub edges_then :
      WorkflowDef Json F64
      → Option (Result DomainError (Unit {0}))
      → Option (Result DomainError (Unit {0}))
  edges_then def none = none
  edges_then def (some r) = some (r >>= λ _. last_checks def)

  abbrev pub edges_of :
      WorkflowDef Json F64 → Result DomainError (Unit {0}) → Option (Result DomainError (Unit {0}))
  edges_of def (err e) = some (err e)
  edges_of def (ok _) = edges_then def (validate_edges def.tasks)

  -- The outer `none` is a loop that runs out of fuel.
  unfoldable pub validate_definition : WorkflowDef Json F64 → Option (Result DomainError (Unit {0}))
  validate_definition def = edges_of def (first_checks def)

abbrev pub max_run_input_bytes : ℕ
max_run_input_bytes = 2 ^ 20

abbrev pub max_json_depth : ℕ
max_json_depth = 64

abbrev pub larger : ℕ → Option ℕ → ℕ
larger n none = n
larger n (some m) = max n m

module _ {N : Type 0} where
  -- The maximum over the elements, which is none when there are none.
  unfoldable mutual
    pub json_depth : Json N → ℕ → ℕ
    json_depth (array xs) d = unwrap_or (items_depth xs (d + 1)) (d + 1)
    json_depth (object fs) d = unwrap_or (fields_depth fs (d + 1)) (d + 1)
    json_depth null d = d
    json_depth (bool b) d = d
    json_depth (number n) d = d
    json_depth (string s) d = d

    pub items_depth : Items N → ℕ → Option ℕ
    items_depth nil d = none
    items_depth (cons x xs) d = some (larger (json_depth x d) (items_depth xs d))

    pub fields_depth : Fields N → ℕ → Option ℕ
    fields_depth end d = none
    fields_depth (field k v fs) d = some (larger (json_depth v d) (fields_depth fs d))

module _ {N : Type 0} (number_len : N → ℕ) where
  unfoldable mutual
    pub json_size : Json N → ℕ
    json_size null = 4
    json_size (bool b) = 4
    json_size (number n) = number_len n
    json_size (string s) = len s + 2
    json_size (array xs) = items_size xs
    json_size (object fs) = fields_size fs

    pub items_size : Items N → ℕ
    items_size nil = 0
    items_size (cons x xs) = json_size x + items_size xs

    pub fields_size : Fields N → ℕ
    fields_size end = 0
    fields_size (field k v fs) = len k + json_size v + fields_size fs

  unfoldable pub validate_run_input : Json N → Result DomainError (Unit {0})
  validate_run_input input =
      let size = json_size input in
      let depth = json_depth input 0 in
      guard (ltb max_run_input_bytes size) (input_too_large size max_run_input_bytes) >>= λ _.
      guard (ltb max_json_depth depth) (input_too_deep depth max_json_depth)
