-- ===== src/Engine/Expr.antt =====
-- src/engine/expr.rs: the context of an expression, paths into it, and evaluation.
pub mod Meaning
pub mod Depth
use Prim.Native.String.{String, compare}
use text.Mathlib.Text.{is_lt}
use aegis_fs.Prelude.{
  ℕ, ◌+◌, Bool, true, false, not, Option, none, some, List, [], ◌∷◌, ltb, if◌then◌else◌,
}
use aegis_fs.Prelude.BTree
use aegis_fs.Prelude.Eq.{◌==◌, string_eq}
use aegis_fs.Prelude.Map.{Map, lookup}
use aegis_fs.Prelude.Result.{Result, ok, err, ◌>>=◌}
use aegis_fs.Prelude.Text.{◌<>◌}
use aegis_fs.Domain.Workflow.{unwrap_or}
use aegis_fs.Engine.Value.{
  Numbers, Json, null, bool, number, string, array, object, Fields, ExprValue, get, from_json, same,
}

-- The constructors that are raised.
pub data ExprError : Type 0 where
  syntax undefined_variable type_mismatch : String → ExprError
  nesting_limit_exceeded : ExprError

pub record ExprContext (N : Type 0) : Type 0 where
  pub run_input : Json N
  pub task_outputs : Map String (Json N)
  pub meta : Map String String

module _ {N : Type 0} where
  abbrev pub new_context : ExprContext N
  new_context = record { run_input = null; task_outputs = []; meta = [] }

  abbrev pub with_run_input : Json N → ExprContext N → ExprContext N
  with_run_input input ctx = record ctx { run_input = input }

  abbrev pub with_task_output : String → Json N → ExprContext N → ExprContext N
  with_task_output name output ctx = record ctx {
    task_outputs = BTree.insert name output ctx.task_outputs;
  }

  abbrev pub with_meta : String → String → ExprContext N → ExprContext N
  with_meta key value ctx = record ctx { meta = BTree.insert key value ctx.meta }

unfoldable pub join : List String → String
join [] = ""
join (s ∷ []) = s
join (s ∷ t ∷ ts) = s <> "." <> join (t ∷ ts)

pub data Expr (F64 : Type 0) : Type 0 where
  literal : ExprValue F64 → Expr F64
  variable : List String → Expr F64
  eq ne lt gt and or : (left right : Expr F64) → Expr F64
  negation : Expr F64 → Expr F64

abbrev pub max_depth : ℕ
max_depth = 32

module _ (numbers : Numbers) where
  open numbers use {Number, F64, lt_f64}

  -- The loop over the segments, which leaves with null at a value that is no object.
  unfoldable pub walk : List String → Json Number → ExprValue F64
  walk [] curr = from_json numbers curr
  walk (segment ∷ segments) (object fields) = walk segments (unwrap_or (get segment fields) null)
  walk (segment ∷ segments) _ = null

  abbrev pub after_output : List String → List String
  after_output (s ∷ rest) = if s == "output" then rest else s ∷ rest
  after_output [] = []

  abbrev pub run_path :
      ExprContext Number → (full rest : List String) → Result ExprError (ExprValue F64)
  run_path ctx full [] = err (undefined_variable (join full))
  run_path ctx full (s ∷ rest) =
      if s == "input" then ok (walk rest ctx.run_input) else err (undefined_variable (join full))

  abbrev pub task_output :
      (full segments : List String) → Option (Json Number) → Result ExprError (ExprValue F64)
  task_output full segments none = err (undefined_variable (join full))
  task_output full segments (some out) = ok (walk (after_output segments) out)

  abbrev pub tasks_path :
      ExprContext Number → (full rest : List String) → Result ExprError (ExprValue F64)
  tasks_path ctx full [] = err (syntax "incomplete tasks path")
  tasks_path ctx full (name ∷ segments) = task_output full segments (lookup name ctx.task_outputs)

  abbrev pub meta_value : Option String → ExprValue F64
  meta_value (some s) = string s
  meta_value none = null

  abbrev pub meta_path :
      ExprContext Number → (full rest : List String) → Result ExprError (ExprValue F64)
  meta_path ctx full (key ∷ []) = ok (meta_value (lookup key ctx.meta))
  meta_path ctx full _ = err (undefined_variable (join full))

  unfoldable pub resolve_path : ExprContext Number → List String → Result ExprError (ExprValue F64)
  unfolding walk
  resolve_path ctx [] = err (syntax "empty variable path")
  resolve_path ctx (root ∷ rest) =
      let full = root ∷ rest in
      if root == "run"
      then run_path ctx full rest
      else if root == "tasks"
      then tasks_path ctx full rest
      else if root == "meta"
      then meta_path ctx full rest
      else err
          (undefined_variable ("unknown root domain '" <> root <> "' in '" <> join full <> "'"))

  -- `a < b` of two operands, `what` being the message where they are not comparable.
  abbrev pub less : (what : String) (a b : ExprValue F64) → Result ExprError (ExprValue F64)
  less what (number a) (number b) = ok (bool (lt_f64 a b))
  less what (string a) (string b) = ok (bool (is_lt (compare a b)))
  less what _ _ = err (type_mismatch what)

  abbrev pub as_bool : (what : String) → ExprValue F64 → Result ExprError Bool
  as_bool what (bool b) = ok b
  as_bool what _ = err (type_mismatch what)

  -- The result of a connective: the left operand where it decides, else the right one, if it is a
  -- Boolean.
  abbrev pub connective :
      (decides : Bool)
      → (what : String) → Result ExprError (ExprValue F64)
      → Result ExprError (ExprValue F64)
      → Result ExprError (ExprValue F64)
  connective decides what left right = left >>= as_bool what >>= λ l.
      if (if decides then l else not l)
      then ok (bool decides)
      else (right >>= as_bool what >>= λ r. ok (bool r))

  module _ (ctx : ExprContext Number) where
    -- What is done at a node, with the evaluation of its operands.
    unfoldable pub eval_depth : ℕ → Expr F64 → Result ExprError (ExprValue F64)
    eval_depth depth (literal v) = if ltb max_depth depth then err nesting_limit_exceeded else ok v
    eval_depth depth (variable path) =
        if ltb max_depth depth then err nesting_limit_exceeded else resolve_path ctx path
    eval_depth depth (eq left right) =
        let value = eval_depth (depth + 1) left >>= λ l.
        eval_depth (depth + 1) right >>= λ r. ok (bool (same numbers l r)) in
        if ltb max_depth depth then err nesting_limit_exceeded else value
    eval_depth depth (ne left right) =
        let value = eval_depth (depth + 1) left >>= λ l.
        eval_depth (depth + 1) right >>= λ r. ok (bool (not (same numbers l r))) in
        if ltb max_depth depth then err nesting_limit_exceeded else value
    eval_depth depth (lt left right) =
        let value = eval_depth (depth + 1) left >>= λ l.
        eval_depth (depth + 1) right >>= λ r. less "< requires comparable operands" l r in
        if ltb max_depth depth then err nesting_limit_exceeded else value
    eval_depth depth (gt left right) =
        let value = eval_depth (depth + 1) left >>= λ l.
        eval_depth (depth + 1) right >>= λ r. less "> requires comparable operands" r l in
        if ltb max_depth depth then err nesting_limit_exceeded else value
    eval_depth depth (and left right) =
        let value =
          connective false "&& requires boolean operands" (eval_depth (depth + 1) left)
            (eval_depth (depth + 1) right) in
        if ltb max_depth depth then err nesting_limit_exceeded else value
    eval_depth depth (or left right) =
        let value =
          connective true "|| requires boolean operands" (eval_depth (depth + 1) left)
            (eval_depth (depth + 1) right) in
        if ltb max_depth depth then err nesting_limit_exceeded else value
    eval_depth depth (negation inner) =
        let value = eval_depth (depth + 1) inner >>= as_bool "! requires boolean operand" >>= λ b.
        ok (bool (not b)) in
        if ltb max_depth depth then err nesting_limit_exceeded else value

    unfoldable pub eval : Expr F64 → Result ExprError (ExprValue F64)
    eval e = eval_depth 0 e
