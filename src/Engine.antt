-- ===== src/Engine.antt =====
-- src/engine: the expressions and templates of task inputs.
pub mod Value
pub mod Expr
pub mod Template
