-- ===== src/Prelude/Float.antt =====
-- `f64`, of which the source uses the operations below; they are a parameter of the model.
use Prim.Native.Nat.{ℕ}
use mathlib.Core.Bool.{Bool}

pub record Float : Type 1 where
  pub F64 : Type 0
  pub one : F64
  pub two : F64
  pub le_one : F64 → Bool  -- `x <= 1.0`
  pub lt_one : F64 → Bool  -- `x < 1.0`
  pub ge_zero : F64 → Bool  -- `x >= 0.0`
  pub is_finite : F64 → Bool
  pub of_nat : ℕ → F64  -- `n as f64`
  pub sub : F64 → F64 → F64
  pub mul : F64 → F64 → F64
  pub powf : F64 → F64 → F64
  pub to_u64 : F64 → ℕ  -- `x as u64`, which saturates
