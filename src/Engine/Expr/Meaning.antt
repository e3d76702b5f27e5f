-- ===== src/Engine/Expr/Meaning.antt =====
-- src/engine/expr.rs: evaluation against rules that know nothing of the depth.
use Prim.Native.Nat.{max}
use mathlib.Core.Path.{subst}
use aegis_fs.Prelude.{
  ℕ, suc, ◌+◌, ◌≤◌, String, Bool, true, false, not, List, ◌≡◌, ◌⊎◌, sym, ap, ◌∙◌, arith, inl, inr,
  ltb, if◌then◌else◌, Bool-cases,
}
use aegis_fs.Prelude.Result.{Result, ok, err, ◌>>=◌, >>=-eq-ok}
use aegis_fs.Engine.Value.{Numbers, ExprValue, bool, null, number, string, array, object, same}
use aegis_fs.Engine.Expr.{
  ExprError, nesting_limit_exceeded, ExprContext, Expr, literal, variable, eq, ne, lt, gt, and, or,
  negation, resolve_path, less, as_bool, connective, eval_depth, max_depth,
}

abbrev pub height : {F64 : Type 0} → Expr F64 → ℕ
height (literal _) = 0
height (variable _) = 0
height (eq l r) = suc (max (height l) (height r))
height (ne l r) = suc (max (height l) (height r))
height (lt l r) = suc (max (height l) (height r))
height (gt l r) = suc (max (height l) (height r))
height (and l r) = suc (max (height l) (height r))
height (or l r) = suc (max (height l) (height r))
height (negation e) = suc (height e)

module _ (numbers : Numbers) (ctx : ExprContext numbers.Number) where
  open numbers use {F64}

  -- The value of an expression. A connective whose left operand decides has no demand on the right one.
  pub data HasValue : Expr F64 → ExprValue F64 → Type 0 where
    of_literal : (v : ExprValue F64) → HasValue (literal v) v
    of_variable :
        (path : List String) (v : ExprValue F64)
        → resolve_path numbers ctx path ≡ ok v
        → HasValue (variable path) v
    of_eq :
        {l r : Expr F64} {a b : ExprValue F64}
        → HasValue l a
        → HasValue r b
        → HasValue (eq l r) (bool (same numbers a b))
    of_ne :
        {l r : Expr F64} {a b : ExprValue F64}
        → HasValue l a
        → HasValue r b
        → HasValue (ne l r) (bool (not (same numbers a b)))
    of_lt :
        {l r : Expr F64} {a b v : ExprValue F64}
        → HasValue l a
        → HasValue r b
        → less numbers "< requires comparable operands" a b ≡ ok v
        → HasValue (lt l r) v
    of_gt :
        {l r : Expr F64} {a b v : ExprValue F64}
        → HasValue l a
        → HasValue r b
        → less numbers "> requires comparable operands" b a ≡ ok v
        → HasValue (gt l r) v
    and_false : {l r : Expr F64} → HasValue l (bool false) → HasValue (and l r) (bool false)
    and_true :
        {l r : Expr F64} {b : Bool}
        → HasValue l (bool true)
        → HasValue r (bool b)
        → HasValue (and l r) (bool b)
    or_true : {l r : Expr F64} → HasValue l (bool true) → HasValue (or l r) (bool true)
    or_false :
        {l r : Expr F64} {b : Bool}
        → HasValue l (bool false)
        → HasValue r (bool b)
        → HasValue (or l r) (bool b)
    of_negation :
        {e : Expr F64} {b : Bool} → HasValue e (bool b) → HasValue (negation e) (bool (not b))

  within :
      {A : Type 0} (d : ℕ) (r : Result ExprError A) {v : A}
      → (if ltb max_depth d then err nesting_limit_exceeded else r) ≡ ok v
      → r ≡ ok v
  within d r h = ground arith

  as_bool_ok :
      (what : String) (v : ExprValue F64) {b : Bool} → as_bool numbers what v ≡ ok b → v ≡ bool b
  as_bool_ok what null h = absurd (cc)
  as_bool_ok what (bool c) h = cc
  as_bool_ok what (number n) h = absurd (cc)
  as_bool_ok what (string s) h = absurd (cc)
  as_bool_ok what (array xs) h = absurd (cc)
  as_bool_ok what (object fs) h = absurd (cc)

  strict_ok :
      (x y : Result ExprError (ExprValue F64))
      → (f : ExprValue F64 → ExprValue F64 → Result ExprError (ExprValue F64)) → (v : ExprValue F64)
      → (x >>= λ a. y >>= λ b. f a b) ≡ ok v
      → (a : ExprValue F64) × (b : ExprValue F64) × (x ≡ ok a) × (y ≡ ok b) × (f a b ≡ ok v)
  strict_ok x y f v h =
      let (a, p, q) = >>=-eq-ok x (λ a. y >>= λ b. f a b) h in
      let (b, r, s) = >>=-eq-ok y (λ b. f a b) q in (a, b, p, r, s)

  -- A connective has a value when its left operand decides it, or else its right one is a Boolean.
  connective_ok :
      (decides : Bool) (what : String) (x y : Result ExprError (ExprValue F64)) (v : ExprValue F64)
      → connective numbers decides what x y ≡ ok v
      → ((x ≡ ok (bool decides)) × (v ≡ bool decides))
        ⊎ ((b : Bool) × (x ≡ ok (bool (not decides))) × (y ≡ ok (bool b)) × (v ≡ bool b))
  connective_ok decides what x y v h =
      let (l, p, q) = >>=-eq-ok (x >>= as_bool numbers what) _ h in
      let (a, r, s) = >>=-eq-ok x (as_bool numbers what) p in
      let left : x ≡ ok (bool l) = r ∙ ap ok (as_bool_ok what a s) in
      elim (Bool-cases (if decides then l else not l)) [
        | inl e ↦ inl (ground (arith, left, e), ground (arith, q, e))
        | inr e ↦
            let (m, t, u) = >>=-eq-ok (y >>= as_bool numbers what) (λ r. ok (bool r)) (rw e at q) in
            let (b, w, z) = >>=-eq-ok y (as_bool numbers what) t in
            inr (m, ground (arith, left, e), w ∙ ap ok (as_bool_ok what b z), ground (arith, u))
      ]

  pub eval-HasValue :
      (d : ℕ) (e : Expr F64) (v : ExprValue F64) → eval_depth numbers ctx d e ≡ ok v → HasValue e v
  unfolding eval_depth
  eval-HasValue d (literal w) v h =
      let same : w ≡ v = ground arith in subst (HasValue (literal w)) same (of_literal w)
  eval-HasValue d (variable path) v h = of_variable path v (within d _ h)
  eval-HasValue d (eq l r) v h =
      let (a, b, p, q, s) =
        strict_ok (eval_depth numbers ctx (d + 1) l) (eval_depth numbers ctx (d + 1) r)
          (λ a b. ok (bool (same numbers a b))) v (within d _ h) in
      let e : bool (same numbers a b) ≡ v = cc in
      subst (HasValue (eq l r)) e
        (of_eq (eval-HasValue (d + 1) l a p) (eval-HasValue (d + 1) r b q))
  eval-HasValue d (ne l r) v h =
      let (a, b, p, q, s) =
        strict_ok (eval_depth numbers ctx (d + 1) l) (eval_depth numbers ctx (d + 1) r)
          (λ a b. ok (bool (not (same numbers a b)))) v (within d _ h) in
      let e : bool (not (same numbers a b)) ≡ v = cc in
      subst (HasValue (ne l r)) e
        (of_ne (eval-HasValue (d + 1) l a p) (eval-HasValue (d + 1) r b q))
  eval-HasValue d (lt l r) v h =
      let (a, b, p, q, s) =
        strict_ok (eval_depth numbers ctx (d + 1) l) (eval_depth numbers ctx (d + 1) r)
          (less numbers "< requires comparable operands") v (within d _ h) in
      of_lt (eval-HasValue (d + 1) l a p) (eval-HasValue (d + 1) r b q) s
  eval-HasValue d (gt l r) v h =
      let (a, b, p, q, s) =
        strict_ok (eval_depth numbers ctx (d + 1) l) (eval_depth numbers ctx (d + 1) r)
          (λ a b. less numbers "> requires comparable operands" b a) v (within d _ h) in
      of_gt (eval-HasValue (d + 1) l a p) (eval-HasValue (d + 1) r b q) s
  eval-HasValue d (and l r) v h =
      elim (connective_ok false "&& requires boolean operands" (eval_depth numbers ctx (d + 1) l)
        (eval_depth numbers ctx (d + 1) r) v (within d _ h)) [
          | inl (p, e) ↦
              subst (HasValue (and l r)) (sym e) (and_false (eval-HasValue (d + 1) l _ p))
          | inr (b, p, q, e) ↦
              subst (HasValue (and l r)) (sym e)
                (and_true (eval-HasValue (d + 1) l _ p) (eval-HasValue (d + 1) r _ q))
        ]
  eval-HasValue d (or l r) v h =
      elim (connective_ok true "|| requires boolean operands" (eval_depth numbers ctx (d + 1) l)
        (eval_depth numbers ctx (d + 1) r) v (within d _ h)) [
          | inl (p, e) ↦ subst (HasValue (or l r)) (sym e) (or_true (eval-HasValue (d + 1) l _ p))
          | inr (b, p, q, e) ↦
              subst (HasValue (or l r)) (sym e)
                (or_false (eval-HasValue (d + 1) l _ p) (eval-HasValue (d + 1) r _ q))
        ]
  eval-HasValue d (negation e) v h =
      let (b, p, q) =
        >>=-eq-ok
          (eval_depth numbers ctx (d + 1) e >>= as_bool numbers "! requires boolean operand")
          (λ b. ok (bool (not b))) (within d _ h) in
      let (a, r, s) =
        >>=-eq-ok (eval_depth numbers ctx (d + 1) e) (as_bool numbers "! requires boolean operand")
          p in
      let is_bool = as_bool_ok "! requires boolean operand" a s in
      let value : bool (not b) ≡ v = cc in
      subst (HasValue (negation e)) value
        (of_negation (eval-HasValue (d + 1) e (bool b) (r ∙ ap ok is_bool)))

  pub HasValue-eval :
      (d : ℕ) (e : Expr F64) (v : ExprValue F64)
      → d + height e ≤ 32
      → HasValue e v
      → eval_depth numbers ctx d e ≡ ok v
  unfolding eval_depth
  HasValue-eval d (literal w) v l (of_literal _) = ground arith
  HasValue-eval d (variable path) v l (of_variable _ _ p) = ground (arith, p)
  HasValue-eval d (eq x y) v l (of_eq {a} {b} p q) =
      let left = HasValue-eval (d + 1) x a (omega arith) p in
      let right = HasValue-eval (d + 1) y b (omega arith) q in rw (left, right) (ground arith)
  HasValue-eval d (ne x y) v l (of_ne {a} {b} p q) =
      let left = HasValue-eval (d + 1) x a (omega arith) p in
      let right = HasValue-eval (d + 1) y b (omega arith) q in rw (left, right) (ground arith)
  HasValue-eval d (lt x y) v l (of_lt {a} {b} p q s) =
      let left = HasValue-eval (d + 1) x a (omega arith) p in
      let right = HasValue-eval (d + 1) y b (omega arith) q in rw (left, right, s) (ground arith)
  HasValue-eval d (gt x y) v l (of_gt {a} {b} p q s) =
      let left = HasValue-eval (d + 1) x a (omega arith) p in
      let right = HasValue-eval (d + 1) y b (omega arith) q in rw (left, right, s) (ground arith)
  HasValue-eval d (and x y) v l (and_false p) =
      let left = HasValue-eval (d + 1) x (bool false) (omega arith) p in rw left (ground arith)
  HasValue-eval d (and x y) v l (and_true {b} p q) =
      let left = HasValue-eval (d + 1) x (bool true) (omega arith) p in
      let right = HasValue-eval (d + 1) y (bool b) (omega arith) q in
      rw (left, right) (ground arith)
  HasValue-eval d (or x y) v l (or_true p) =
      let left = HasValue-eval (d + 1) x (bool true) (omega arith) p in rw left (ground arith)
  HasValue-eval d (or x y) v l (or_false {b} p q) =
      let left = HasValue-eval (d + 1) x (bool false) (omega arith) p in
      let right = HasValue-eval (d + 1) y (bool b) (omega arith) q in
      rw (left, right) (ground arith)
  HasValue-eval d (negation x) v l (of_negation {b} p) =
      let inner = HasValue-eval (d + 1) x (bool b) (omega arith) p in rw inner (ground arith)
