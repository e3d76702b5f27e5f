-- ===== src/Domain/RunStatus.antt =====
-- src/domain/status.rs, `RunStatus`. What the derive macros generate besides `==` (`FromStr`,
-- `Display`, serde) is not modelled.
use aegis_fs.Prelude.{String, Bool, true, false}

pub data RunStatus : Type 0 where
  queued running succeeded failed cancelled timed_out : RunStatus

-- The derived `==`.
abbrev pub eq : RunStatus → RunStatus → Bool
eq queued queued = true
eq running running = true
eq succeeded succeeded = true
eq failed failed = true
eq cancelled cancelled = true
eq timed_out timed_out = true
eq _ _ = false

abbrev pub is_terminal : RunStatus → Bool
is_terminal succeeded = true
is_terminal failed = true
is_terminal cancelled = true
is_terminal timed_out = true
is_terminal _ = false

abbrev pub is_active : RunStatus → Bool
is_active queued = true
is_active running = true
is_active _ = false

unfoldable pub label : RunStatus → String
label queued = "queued"
label running = "running"
label succeeded = "succeeded"
label failed = "failed"
label cancelled = "cancelled"
label timed_out = "timed out"

-- The derived `Display`, in lower case; `TimedOut` has no separator there.
unfoldable pub display : RunStatus → String
display queued = "queued"
display running = "running"
display succeeded = "succeeded"
display failed = "failed"
display cancelled = "cancelled"
display timed_out = "timedout"
