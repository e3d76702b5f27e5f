-- ===== src/Domain/TaskStatus.antt =====
-- src/domain/status.rs, `TaskStatus`.
use aegis_fs.Prelude.{String, Bool, true, false}

pub data TaskStatus : Type 0 where
  pending running succeeded failed skipped : TaskStatus

-- The derived `==`.
abbrev pub eq : TaskStatus → TaskStatus → Bool
eq pending pending = true
eq running running = true
eq succeeded succeeded = true
eq failed failed = true
eq skipped skipped = true
eq _ _ = false

abbrev pub is_terminal : TaskStatus → Bool
is_terminal succeeded = true
is_terminal failed = true
is_terminal skipped = true
is_terminal _ = false

abbrev pub is_active : TaskStatus → Bool
is_active pending = true
is_active running = true
is_active _ = false

-- The derived `Display`.
unfoldable pub display : TaskStatus → String
display pending = "pending"
display running = "running"
display succeeded = "succeeded"
display failed = "failed"
display skipped = "skipped"
