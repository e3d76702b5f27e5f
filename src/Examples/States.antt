-- ===== src/Examples/States.antt =====
-- The machines at chosen statuses.
use aegis_fs.Prelude.{◌≡◌, ◌≢◌, ◌↔◌, none, some, [], ◌∷◌}
use aegis_fs.Prelude.Result.{ok}
use aegis_fs.Domain.RunStatus.{failed}
use aegis_fs.Domain.TaskStatus
use aegis_fs.State.Invariant.{check_run_consistency}
use aegis_fs.State.Invariant.Decides.{Consistent, check-Consistent}

check-Consistent_example :
    (check_run_consistency failed (("a", TaskStatus.skipped) ∷ []) ≢ none)
    × ((check_run_consistency failed (("a", TaskStatus.skipped) ∷ []) ≡ some (ok tt))
        ↔ Consistent failed (("a", TaskStatus.skipped) ∷ []))
check-Consistent_example = check-Consistent failed (("a", TaskStatus.skipped) ∷ [])
