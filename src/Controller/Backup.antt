-- ===== src/Controller/Backup.antt =====
-- internal/controller/backup_controller.go
pub mod Laws
pub mod Lifecycle
pub mod Sessions
use serenedb_operator.Prelude.{
  String, Bool, true, false, Option, none, some, not, ◌&&◌, ◌||◌, if◌then◌else◌, ◌==◌, ◌<>◌,
}
use serenedb_operator.Errors.{
  Err, Result, ok, err, wrapped, quoted, error_message, is_not_found, is_already_exists,
  is_no_kind_match,
}
use serenedb_operator.Api.Meta.{NamespacedName, ObjectMeta, Time}
use serenedb_operator.Api.Core.{VolumeSnapshot}
use serenedb_operator.Api.SereneDb.{SereneDb}
use serenedb_operator.Api.Backups.{
  Backup, backup_method_volume_snapshot, phase_pending, phase_running, phase_completed,
  phase_failed,
}
use serenedb_operator.Resources.Snapshot.{data_claim_name, volume_snapshot, snapshot_outcome}
use serenedb_operator.Controller.Kube.{
  Env, Library, get_object, a_backup, a_serenedb, a_snapshot, backup, snapshot, create, exec,
  patch_status,
}
use serenedb_operator.Controller.Op.{
  Op, Outcome, done, stopped, failed, panicked, pure, fail, panic, perform, ask, capture, closing,
  CtrlResult, no_requeue, requeue_seconds, ignore_not_found, ◌>>=◌, ◌>>◌,
}
use serenedb_operator.Controller.Session.{open_session}
use serenedb_operator.Controller.Finalize.{missing_dependency_requeue}
use serenedb_operator.Prelude.{is_some}
use serenedb_operator.Controller.Database.{status_patched}

-- `snapshotPollInterval`
abbrev pub snapshot_poll_interval : CtrlResult
snapshot_poll_interval = requeue_seconds 15

-- `pending` and `fail`
unfoldable pub set_pending : Backup → String → Backup
set_pending b message = record b {
  status = record (b.status) { phase = phase_pending; error = message };
}

unfoldable pub set_failed : Backup → String → Backup
set_failed b message = record b {
  status = record (b.status) { phase = phase_failed; error = message };
}

unfoldable pub set_running : Backup → Time → String → Backup
set_running b started name = record b {
  status = record (b.status) {
    phase = phase_running;
    started_at = some started;
    snapshot_name = name;
    error = "";
  };
}

unfoldable pub set_completed : Backup → Time → Backup
set_completed b now = record b {
  status = record (b.status) { phase = phase_completed; completed_at = some now };
}

-- A step of a backup: the object with its new status, and the requeue.
abbrev pub Step : Type 0
Step = Op (Backup × CtrlResult)

module _ (env : Env) where
  abbrev pub clock : Op Time
  clock h = pure (env.now h) h

  -- The answer to the creation of the snapshot.
  unfoldable pub created : Backup → Time → VolumeSnapshot → Result (Unit {0}) → Step
  created b started snap (ok u) =
      pure (set_running b started snap.metadata.name, snapshot_poll_interval)
  created b started snap (err e) =
      if is_already_exists e
      then pure (set_running b started snap.metadata.name, snapshot_poll_interval)
      else if is_not_found e || is_no_kind_match e
      then pure (
        set_failed b "the cluster has no VolumeSnapshot API; install a CSI snapshot controller",
        no_requeue,
      )
      else fail (wrapped "create volumesnapshot" e)

  -- The owner reference is set on the snapshot before it is created.
  abbrev owned_or_fail : VolumeSnapshot → Result ObjectMeta → Op VolumeSnapshot
  owned_or_fail base (ok m) = pure (record base { metadata = m })
  owned_or_fail base (err e) = fail (wrapped "set snapshot owner" e)

  unfoldable pub request_snapshot : Backup → SereneDb → Step
  request_snapshot b db = do
    started ← clock
    let base = volume_snapshot b (data_claim_name db)
    snap ← owned_or_fail base (env.lib.set_controller_reference b.metadata base.metadata)
    answer ← ask env (create (snapshot snap))
    created b started snap answer

  -- The answer to CHECKPOINT.
  unfoldable pub checkpointed : Backup → SereneDb → Result (Unit {0}) → Step
  checkpointed b db (ok u) = request_snapshot b db
  checkpointed b db (err e) =
      pure (set_pending b ("checkpoint: " <> error_message e), missing_dependency_requeue)

  unfoldable pub on_session : Backup → SereneDb → Outcome (Unit {0}) → Step
  on_session b db (done u) =
      closing (do answer ← ask env (exec "CHECKPOINT"); checkpointed b db answer)
  on_session b db (stopped p) = pure (set_pending b p.message, missing_dependency_requeue)
  on_session b db (failed e) = fail e
  on_session b db panicked = panic

  unfoldable pub on_cluster : Backup → Result SereneDb → Step
  on_cluster b (ok db) = do
    opened ← capture (open_session env b.metadata.namespace b.spec.cluster.name)
    on_session b db opened
  on_cluster b (err e) =
      if is_not_found e
      then pure (
        set_pending b ("serenedb " <> quoted b.spec.cluster.name <> " not found"),
        missing_dependency_requeue,
      )
      else fail (wrapped "get serenedb" e)

  -- Checkpoints the server and requests the snapshot.
  unfoldable pub start : Backup → Step
  start b =
      if not (b.spec.method == "") && not (b.spec.method == backup_method_volume_snapshot)
      then pure (set_failed b ("unsupported method " <> quoted b.spec.method), no_requeue)
      else do
        let key : NamespacedName = record {
          namespace = b.metadata.namespace;
          name = b.spec.cluster.name;
        }
        got ← perform (get_object a_serenedb key) (λ h. env.get_serenedb h key)
        on_cluster b got

  -- What the status of the snapshot says.
  unfoldable pub observed : Backup → Bool × String → Step
  observed b (ready, failure) =
      if not (failure == "")
      then pure (set_failed b failure, no_requeue)
      else if not ready
      then pure (b, snapshot_poll_interval)
      else do now ← clock; pure (set_completed b now, no_requeue)

  unfoldable pub on_snapshot : Backup → Result VolumeSnapshot → Step
  on_snapshot b (ok s) = observed b (snapshot_outcome s)
  on_snapshot b (err e) =
      if is_not_found e
      then pure (
        set_failed b ("volumesnapshot " <> quoted b.status.snapshot_name <> " disappeared"),
        no_requeue,
      )
      else fail (wrapped "get volumesnapshot" e)

  -- Waits for the snapshot to become ready to use.
  unfoldable pub observe : Backup → Step
  observe b = do
    let key : NamespacedName = record {
      namespace = b.metadata.namespace;
      name = b.status.snapshot_name;
    }
    got ← perform (get_object a_snapshot key) (λ h. env.get_snapshot h key)
    on_snapshot b got

  -- The step that the phase asks for; `none` where the backup has ended.
  unfoldable pub step_of : Backup → Option Step
  step_of b =
      if b.status.phase == phase_completed || b.status.phase == phase_failed
      then none
      else if b.status.phase == phase_running
      then some (observe b)
      else some (start b)

  abbrev pub run_step : Backup → Option Step → Op CtrlResult
  run_step b none = pure no_requeue
  run_step b (some step) = do
    (b', result) ← step
    answer ← ask env (patch_status (backup b) (backup b'))
    status_patched result answer

  -- `Reconcile` behind the read of the object.
  unfoldable pub reconcile_object : Backup → Op CtrlResult
  reconcile_object b =
      if is_some b.metadata.deletion_timestamp then pure no_requeue else run_step b (step_of b)

  abbrev pub after_get : Result Backup → Op CtrlResult
  after_get (ok b) = reconcile_object b
  after_get (err e) = ignore_not_found e

  unfoldable pub reconcile : NamespacedName → Op CtrlResult
  reconcile request = do
    got ← perform (get_object a_backup request) (λ h. env.get_backup h request)
    after_get got
