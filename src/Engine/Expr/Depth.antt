-- ===== src/Engine/Expr/Depth.antt =====
-- src/engine/expr.rs: which expressions are refused for their depth.
use Prim.Native.Nat.{max}
use mathlib.Core.Path.{subst}
use aegis_fs.Prelude.{
  ℕ, suc, ◌+◌, ◌≤◌, ◌<◌, String, Bool, true, false, not, List, [], ◌∷◌, ◌≡◌, ◌⊎◌, sym, arith, inl,
  inr, Option, none, some, ltb, if◌then◌else◌, Bool-cases,
}
use aegis_fs.Prelude.Eq.{◌==◌, string_eq}
use aegis_fs.Prelude.Map.{lookup}
use aegis_fs.Prelude.Result.{Result, ok, err, ◌>>=◌}
use aegis_fs.Engine.Value.{
  Numbers, ExprValue, Json, bool, null, number, string, array, object, same,
}
use aegis_fs.Engine.Expr.{
  ExprError, syntax, undefined_variable, type_mismatch, nesting_limit_exceeded, ExprContext, Expr,
  literal, variable, eq, ne, lt, gt, and, or, negation, resolve_path, less, as_bool, connective,
  eval_depth, eval, max_depth, run_path, tasks_path, meta_path, task_output,
}
use aegis_fs.Engine.Expr.Meaning.{height, HasValue, eval-HasValue, HasValue-eval}

-- The error of the depth, as a test.
abbrev TooDeep : {A : Type 0} → Result ExprError A → Type 0
TooDeep (err nesting_limit_exceeded) = Unit
TooDeep _ = ⊥

TooDeep-bind :
    {A B : Type 0} (r : Result ExprError A) (f : A → Result ExprError B)
    → TooDeep (r >>= f)
    → TooDeep r ⊎ ((a : A) × TooDeep (f a))
TooDeep-bind (ok a) f h = inr (a, h)
TooDeep-bind (err nesting_limit_exceeded) f h = inl tt
TooDeep-bind (err (syntax _)) f h = absurd h
TooDeep-bind (err (undefined_variable _)) f h = absurd h
TooDeep-bind (err (type_mismatch _)) f h = absurd h

module _ (numbers : Numbers) (ctx : ExprContext numbers.Number) where
  open numbers use {F64}

  as_bool-shallow : (what : String) (v : ExprValue F64) → ¬ TooDeep (as_bool numbers what v)
  as_bool-shallow what null h = h
  as_bool-shallow what (bool c) h = h
  as_bool-shallow what (number n) h = h
  as_bool-shallow what (string s) h = h
  as_bool-shallow what (array xs) h = h
  as_bool-shallow what (object fs) h = h

  less-shallow : (what : String) (a b : ExprValue F64) → ¬ TooDeep (less numbers what a b)
  less-shallow what null b h = h
  less-shallow what (bool c) b h = h
  less-shallow what (number n) null h = h
  less-shallow what (number n) (bool _) h = h
  less-shallow what (number n) (number _) h = h
  less-shallow what (number n) (string _) h = h
  less-shallow what (number n) (array _) h = h
  less-shallow what (number n) (object _) h = h
  less-shallow what (string s) null h = h
  less-shallow what (string s) (bool _) h = h
  less-shallow what (string s) (number _) h = h
  less-shallow what (string s) (string _) h = h
  less-shallow what (string s) (array _) h = h
  less-shallow what (string s) (object _) h = h
  less-shallow what (array xs) b h = h
  less-shallow what (object fs) b h = h

  run-shallow : (full rest : List String) → ¬ TooDeep (run_path numbers ctx full rest)
  run-shallow full [] h = h
  run-shallow full (s ∷ rest) h = elim (Bool-cases (s == "input")) [
    | inl e ↦ rw e at h
    | inr e ↦ rw e at h
  ]

  output-shallow :
      (full rest : List String) (out : Option (Json numbers.Number))
      → ¬ TooDeep (task_output numbers full rest out)
  output-shallow full rest none h = h
  output-shallow full rest (some out) h = h

  tasks-shallow : (full rest : List String) → ¬ TooDeep (tasks_path numbers ctx full rest)
  tasks-shallow full [] h = h
  tasks-shallow full (name ∷ rest) h = output-shallow full rest (lookup name ctx.task_outputs) h

  meta-shallow : (full rest : List String) → ¬ TooDeep (meta_path numbers ctx full rest)
  meta-shallow full [] h = h
  meta-shallow full (key ∷ []) h = h
  meta-shallow full (key ∷ k ∷ ks) h = h

  resolve-shallow : (path : List String) → ¬ TooDeep (resolve_path numbers ctx path)
  unfolding resolve_path
  resolve-shallow [] h = h
  resolve-shallow (root ∷ rest) h = elim (Bool-cases (root == "run")) [
    | inl e ↦ run-shallow (root ∷ rest) rest (rw e at h)
    | inr e ↦ elim (Bool-cases (root == "tasks")) [
      | inl f ↦ tasks-shallow (root ∷ rest) rest (rw (e, f) at h)
      | inr f ↦ elim (Bool-cases (root == "meta")) [
        | inl g ↦ meta-shallow (root ∷ rest) rest (rw (e, f, g) at h)
        | inr g ↦ rw (e, f, g) at h
      ]
    ]
  ]

  -- Where an evaluation is refused, the depth is used up or the part is refused.
  guarded :
      (d : ℕ) (r : Result ExprError (ExprValue F64))
      → TooDeep (if ltb max_depth d then err nesting_limit_exceeded else r)
      → (32 < d) ⊎ TooDeep r
  guarded d r h = elim (Bool-cases (ltb max_depth d)) [
    | inl e ↦ inl (ground (arith, e))
    | inr e ↦ inr (rw e at h)
  ]

  strict_deep :
      (x y : Result ExprError (ExprValue F64))
      → (f : ExprValue F64 → ExprValue F64 → Result ExprError (ExprValue F64))
      → ((a b : ExprValue F64) → ¬ TooDeep (f a b))
      → TooDeep (x >>= λ a. y >>= λ b. f a b)
      → TooDeep x ⊎ TooDeep y
  strict_deep x y f never h = elim (TooDeep-bind x (λ a. y >>= λ b. f a b) h) [
    | inl p ↦ inl p
    | inr (a, q) ↦ elim (TooDeep-bind y (λ b. f a b) q) [
      | inl p ↦ inr p
      | inr (b, r) ↦ absurd (never a b r)
    ]
  ]

  as_bool_deep :
      (what : String) (x : Result ExprError (ExprValue F64))
      → TooDeep (x >>= as_bool numbers what)
      → TooDeep x
  as_bool_deep what x h = elim (TooDeep-bind x (as_bool numbers what) h) [
    | inl p ↦ p
    | inr (v, q) ↦ absurd (as_bool-shallow what v q)
  ]

  connective_deep :
      (decides : Bool) (what : String) (x y : Result ExprError (ExprValue F64))
      → TooDeep (connective numbers decides what x y)
      → TooDeep x ⊎ TooDeep y
  connective_deep decides what x y h = elim (TooDeep-bind (x >>= as_bool numbers what) _ h) [
    | inl p ↦ inl (as_bool_deep what x p)
    | inr (l, q) ↦ elim (Bool-cases (if decides then l else not l)) [
      | inl e ↦ absurd (rw e at q)
      | inr e ↦ elim (TooDeep-bind (y >>= as_bool numbers what) (λ r. ok (bool r)) (rw e at q)) [
        | inl p ↦ inr (as_bool_deep what y p)
        | inr (r, z) ↦ absurd z
      ]
    ]
  ]

  -- The two operands of a node, one of which is refused one level below.
  deeper :
      (d : ℕ) (l r : Expr F64)
      → (TooDeep (eval_depth numbers ctx (d + 1) l) → 32 < d + 1 + height l)
      → (TooDeep (eval_depth numbers ctx (d + 1) r) → 32 < d + 1 + height r)
      → TooDeep (eval_depth numbers ctx (d + 1) l) ⊎ TooDeep (eval_depth numbers ctx (d + 1) r)
      → 32 < d + suc (max (height l) (height r))
  deeper d l r left right c = elim c [
    | inl p ↦ let low = left p in omega arith
    | inr p ↦ let low = right p in omega arith
  ]

  eval-deep : (d : ℕ) (e : Expr F64) → TooDeep (eval_depth numbers ctx d e) → 32 < d + height e
  unfolding eval_depth
  eval-deep d (literal w) h = elim (guarded d (ok w) h) [ inl l ↦ omega arith | inr p ↦ absurd p ]
  eval-deep d (variable path) h = elim (guarded d (resolve_path numbers ctx path) h) [
    | inl l ↦ omega arith
    | inr p ↦ absurd (resolve-shallow path p)
  ]
  eval-deep d (eq l r) h = elim (guarded d _ h) [
    | inl x ↦ omega arith
    | inr p ↦ deeper d l r (eval-deep (d + 1) l) (eval-deep (d + 1) r) (
        strict_deep (eval_depth numbers ctx (d + 1) l) (eval_depth numbers ctx (d + 1) r)
          (λ a b. ok (bool (same numbers a b))) (λ a b h. h) p)
  ]
  eval-deep d (ne l r) h = elim (guarded d _ h) [
    | inl x ↦ omega arith
    | inr p ↦ deeper d l r (eval-deep (d + 1) l) (eval-deep (d + 1) r) (
        strict_deep (eval_depth numbers ctx (d + 1) l) (eval_depth numbers ctx (d + 1) r)
          (λ a b. ok (bool (not (same numbers a b)))) (λ a b h. h) p)
  ]
  eval-deep d (lt l r) h = elim (guarded d _ h) [
    | inl x ↦ omega arith
    | inr p ↦ deeper d l r (eval-deep (d + 1) l) (eval-deep (d + 1) r) (
        strict_deep (eval_depth numbers ctx (d + 1) l) (eval_depth numbers ctx (d + 1) r)
          (less numbers "< requires comparable operands")
          (less-shallow "< requires comparable operands") p)
  ]
  eval-deep d (gt l r) h = elim (guarded d _ h) [
    | inl x ↦ omega arith
    | inr p ↦ deeper d l r (eval-deep (d + 1) l) (eval-deep (d + 1) r) (
        strict_deep (eval_depth numbers ctx (d + 1) l) (eval_depth numbers ctx (d + 1) r)
          (λ a b. less numbers "> requires comparable operands" b a)
          (λ a b. less-shallow "> requires comparable operands" b a) p)
  ]
  eval-deep d (and l r) h = elim (guarded d _ h) [
    | inl x ↦ omega arith
    | inr p ↦ deeper d l r (eval-deep (d + 1) l) (eval-deep (d + 1) r) (
        connective_deep false "&& requires boolean operands" (eval_depth numbers ctx (d + 1) l)
          (eval_depth numbers ctx (d + 1) r) p)
  ]
  eval-deep d (or l r) h = elim (guarded d _ h) [
    | inl x ↦ omega arith
    | inr p ↦ deeper d l r (eval-deep (d + 1) l) (eval-deep (d + 1) r) (
        connective_deep true "|| requires boolean operands" (eval_depth numbers ctx (d + 1) l)
          (eval_depth numbers ctx (d + 1) r) p)
  ]
  eval-deep d (negation e) h = elim (guarded d _ h) [
    | inl x ↦ omega arith
    | inr p ↦
        elim (TooDeep-bind
          (eval_depth numbers ctx (d + 1) e >>= as_bool numbers "! requires boolean operand")
          (λ b. ok (bool (not b))) p) [
            | inl q ↦
                let low = eval-deep (d + 1) e (as_bool_deep "! requires boolean operand" _ q) in
                omega arith
            | inr (b, z) ↦ absurd z
          ]
  ]

  -- A value that the evaluation returns is a value of the expression by the rules, which do not know of
  -- the depth; an expression of at most 32 levels evaluates to each of its values; and only an
  -- expression of more levels is refused for its nesting.
  pub eval_lem :
      (e : Expr F64)
      → ((v : ExprValue F64) → eval numbers ctx e ≡ ok v → HasValue numbers ctx e v)
        × (height e ≤ 32
            → (v : ExprValue F64) → HasValue numbers ctx e v
            → eval numbers ctx e ≡ ok v)
        × (eval numbers ctx e ≡ err nesting_limit_exceeded → 32 < height e)
  unfolding eval
  eval_lem e = (
    λ v h. eval-HasValue numbers ctx 0 e v h,
    λ low v h. HasValue-eval numbers ctx 0 e v (omega arith) h,
    λ h. (let deep = eval-deep 0 e (subst TooDeep (sym h) tt) in omega arith),
  )
