-- ===== src/Domain/FailureKind.antt =====
-- src/domain/status.rs, `FailureKind`.
use aegis_fs.Prelude.{String, Bool, true, false}

pub data FailureKind : Type 0 where
  invalid_input rejected transient_failure timeout handler_crash cancelled exhausted : FailureKind

abbrev pub retryable : FailureKind → Bool
retryable transient_failure = true
retryable timeout = true
retryable handler_crash = true
retryable _ = false

unfoldable pub code : FailureKind → String
code invalid_input = "invalid_input"
code rejected = "rejected"
code transient_failure = "transient"
code timeout = "timeout"
code handler_crash = "handler_crash"
code cancelled = "cancelled"
code exhausted = "exhausted"
