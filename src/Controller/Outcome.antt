-- ===== src/Controller/Outcome.antt =====
-- internal/controller/dependent.go: the Ready condition and the requeue that follow an application.
pub mod Laws
use serenedb_operator.Prelude.{ℕ, String, List, ◌*◌}
use serenedb_operator.Prelude.Int.{pos}
use serenedb_operator.Errors.{Err, Blocked, error_message}
use serenedb_operator.Api.Meta.{
  Condition, ConditionStatus, condition_true, condition_false, condition_ready,
}
use serenedb_operator.Controller.Kube.{Library}
use serenedb_operator.Controller.Op.{
  Outcome, done, stopped, failed, panicked, CtrlResult, requeue_seconds,
}
use serenedb_operator.Controller.Finalize.{missing_dependency_requeue}

abbrev pub reason_sql_error : String
reason_sql_error = "SQLError"

abbrev pub reason_applied : String
reason_applied = "Applied"

abbrev pub reason_invalid_spec : String
reason_invalid_spec = "InvalidSpec"

-- `resyncInterval`, ten minutes
abbrev pub resync_interval : CtrlResult
resync_interval = requeue_seconds 600

module _ (lib : Library) where
  unfoldable pub set_ready :
      List Condition → ℕ → ConditionStatus → (reason message : String) → List Condition
  set_ready conditions generation status reason message =
      lib.set_status_condition conditions (record {
        kind = condition_ready;
        status = status;
        reason = reason;
        message = message;
        observed_generation = generation;
      })

  -- A panic does not come here: it ends the reconcile.
  unfoldable pub outcome :
      {A : Type 0} → List Condition → ℕ → Outcome A → List Condition × CtrlResult
  unfolding set_ready
  outcome conditions generation (failed e) = (
    set_ready conditions generation condition_false reason_sql_error (error_message e),
    missing_dependency_requeue,
  )
  outcome conditions generation (stopped b) = (
    set_ready conditions generation condition_false b.reason b.message,
    missing_dependency_requeue,
  )
  outcome conditions generation (done a) = (
    set_ready conditions generation condition_true reason_applied "applied on the server",
    resync_interval,
  )
  outcome conditions generation panicked = (conditions, resync_interval)
