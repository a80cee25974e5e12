-- ===== src/Tests/Lifecycle.antt =====
-- Examples: a Backup from its creation to its end.
use serenedb_operator.Resources.Snapshot.{snapshot_outcome, volume_snapshot}
use serenedb_operator.Resources.Names.{name, password_key, secret_name}
use serenedb_operator.Prelude.Dict.{lookup}
use serenedb_operator.Controller.Session.{superuser_password, open_session}
use serenedb_operator.Controller.Backup.Lifecycle.Completed.{completed_has_snapshot}
use serenedb_operator.Api.Meta.{new_meta}
use serenedb_operator.Errors.{ok}
use serenedb_operator.Tests.World.{backup, env}
use serenedb_operator.Controller.Backup.Lifecycle.{Life, Ready, Run}
use serenedb_operator.Controller.Kube.{Env}
use serenedb_operator.Api.Backups.{phase_completed, phase_running, Backup}
use serenedb_operator.Prelude.{eq_iff, true, inr, inl, [], some, none, refl}
use serenedb_operator.Controller.Backup.{
  snapshot_poll_interval, observed, on_snapshot, created, request_snapshot, checkpointed,
  on_session, set_running, on_cluster, step_of, set_completed, start, observe,
}
use serenedb_operator.Controller.Op.{no_requeue}

-- The environment in which every snapshot is ready.
abbrev with_snapshots : Env
with_snapshots = record env {
  get_snapshot = λ h key. ok (record {
    metadata = new_meta key.name key.namespace [];
    claim_name = "data-main-0";
    class_name = none;
    ready_to_use = some true;
    error_message = none;
  });
}

abbrev started : Backup
started = set_running backup 9 "nightly-1"

-- Someone asks for another class in the meantime.
abbrev changed : Backup
changed = record started {
  spec = record (started.spec) { volume_snapshot_class_name = some "fast" };
}

abbrev ended : Backup
ended = set_completed changed 9

ended-Life : Life with_snapshots backup ended
unfolding step_of start on_cluster on_session checkpointed request_snapshot created set_running
    open_session superuser_password lookup secret_name password_key name volume_snapshot observe
    on_snapshot observed set_completed snapshot_outcome
ended-Life =
    Life.stepped changed ended (observe with_snapshots changed) no_requeue [] _
      (Life.edited started changed
        (Life.stepped backup started (start with_snapshots backup) snapshot_poll_interval [] _
          Life.born refl refl)
        refl)
      refl refl

completed_has_snapshot_example :
    Run with_snapshots backup ended × Ready with_snapshots backup ended.status
unfolding set_completed
completed_has_snapshot_example =
    completed_has_snapshot with_snapshots backup ended
      (λ run. elim run [
        | inl e ↦ absurd (cc ((eq_iff "" phase_running).1 e))
        | inr e ↦ cc ((eq_iff "" phase_completed).1 e)
      ])
      ended-Life refl
