-- ===== src/Controller/Server/Status.antt =====
-- `describe` of internal/controller/serenedb_controller.go: the status after a reconcile.
pub mod Laws
use serenedb_operator.Prelude.{
  ℕ, String, Bool, true, false, Option, none, some, not, ◌||◌, if◌then◌else◌, ◌==ℕ◌, ◌==◌,
}
use serenedb_operator.Errors.{Err, Result, ok, err, Blocked, precondition, error_message}
use serenedb_operator.Api.Meta.{
  Condition, ConditionStatus, condition_true, condition_false, condition_ready,
  condition_progressing,
}
use serenedb_operator.Api.Core.{StatefulSet, StatefulSetStatus}
use serenedb_operator.Api.SereneDb.{SereneDb, SereneDbStatus}
use serenedb_operator.Resources.Names.{secret_name, host, postgres_port, image_tag}
use serenedb_operator.Controller.Kube.{Library}

-- `asBlocked`: the error itself is a precondition; a wrapped one is not looked into.
unfoldable pub as_blocked : Err → Option Blocked
as_blocked (precondition b) = some b
as_blocked _ = none

unfoldable pub rollout_complete : StatefulSet → Bool
rollout_complete sts =
    if not (sts.status.observed_generation ==ℕ sts.metadata.generation)
    then false
    else if not (sts.status.ready_replicas ==ℕ 1) || not (sts.status.updated_replicas ==ℕ 1)
    then false
    else sts.status.current_revision == sts.status.update_revision

module _ (lib : Library) where
  unfoldable pub set_condition :
      SereneDb → (kind : String) → ConditionStatus → (reason message : String) → SereneDb
  set_condition db kind status reason message = record db {
    status = record (db.status) {
      conditions = lib.set_status_condition db.status.conditions (record {
        kind = kind;
        status = status;
        reason = reason;
        message = message;
        observed_generation = db.metadata.generation;
      });
    };
  }

  -- The two conditions, Ready first.
  unfoldable pub set_both :
      SereneDb
      → (ready progressing : ConditionStatus)
      → (ready_reason ready_message progressing_reason progressing_message : String) → SereneDb
  set_both db ready progressing r m r' m' =
      set_condition (set_condition db condition_ready ready r m) condition_progressing progressing
        r' m'

  -- The fields that every branch writes.
  unfoldable pub observed : SereneDb → SereneDb
  observed db = record db {
    status = record (db.status) {
      observed_generation = db.metadata.generation;
      secret_name = secret_name db;
      host = host db;
      port = postgres_port db;
    };
  }

  abbrev pub with_replicas : SereneDb → ℕ → SereneDb
  with_replicas db n = record db { status = record (db.status) { ready_replicas = n } }

  abbrev pub with_version : SereneDb → String → SereneDb
  with_version db v = record db { status = record (db.status) { version = v } }

  unfoldable pub describe_error : SereneDb → Err → Option Blocked → SereneDb
  describe_error db e (some b) =
      set_both (with_replicas db 0) condition_false condition_false b.reason b.message b.reason
        b.message
  describe_error db e none =
      set_both db condition_false condition_true "ReconcileError" (error_message e) "ReconcileError"
        (error_message e)

  unfoldable pub describe_rollout : SereneDb → StatefulSet → SereneDb
  describe_rollout db sts =
      let counted = with_replicas db sts.status.ready_replicas in
      if rollout_complete sts
      then set_both (with_version counted (image_tag db)) condition_true condition_false "PodReady"
          "database pod is serving" "Stable" "rollout complete"
      else set_both counted condition_false condition_true "PodNotReady" "database pod is not ready"
          "RollingOut" "statefulset rollout in progress"

  unfoldable pub describe : SereneDb → Result StatefulSet → SereneDb
  describe db (err e) = describe_error (observed db) e (as_blocked e)
  describe db (ok sts) = describe_rollout (observed db) sts
