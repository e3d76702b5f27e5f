-- ===== src/Domain/Priority.antt =====
-- src/domain/status.rs, `Priority`.
use aegis_fs.Prelude.{ℕ}

pub data Priority : Type 0 where
  high normal low : Priority

-- The discriminant.
abbrev pub rank : Priority → ℕ
rank high = 2
rank normal = 1
rank low = 0

abbrev pub default : Priority
default = normal
