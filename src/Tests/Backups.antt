-- ===== src/Tests/Backups.antt =====
-- Examples of backups and their schedules.
use serenedb_operator.Controller.Trace.{count_of}
use serenedb_operator.Controller.Schedule.Ticks.{tick_with_creates, is_create, value_or}
use serenedb_operator.Prelude.{
  ◌<◌, ◌⊎◌, ◌==◌, if◌then◌else◌, ◌+◌, ◌≡◌, ◌≢◌, refl, true, ◌∷◌, List, [], ◌++◌, All, length,
  filter,
}
use serenedb_operator.Prelude.Dict.{lookup}
use mathlib.Core.List.{Perm}
use serenedb_operator.Errors.{ok}
use serenedb_operator.Api.Backups.{Backup, ScheduledBackup, phase_completed, phase_failed}
use serenedb_operator.Resources.Names.{secret_name, password_key, name}
use serenedb_operator.Resources.Snapshot.{volume_snapshot}
use serenedb_operator.Controller.Kube.{History}
use serenedb_operator.Controller.Op.{no_requeue, Outcome, CtrlResult}
use serenedb_operator.Controller.Session.{open_session, superuser_password}
use serenedb_operator.Controller.Backup.{
  start, on_cluster, on_session, checkpointed, request_snapshot, created, set_running,
  snapshot_poll_interval, step_of,
}
use serenedb_operator.Controller.Backup.Laws.{start_runs, Started, step_of-Moves, Moves}
use serenedb_operator.Prelude.Sort.{sort, insert}
use serenedb_operator.Prelude.Decimal.{decimal}
use serenedb_operator.Controller.Outcome.{set_ready}
use serenedb_operator.Controller.Schedule.{
  not_before, new_backup, prune, backup_created, create_backup, surplus, newer, sub_time,
  add_second, due, due_since, tick_with, run_if_due, ready_as, prune_to, delete_from, delete_all,
  deleted,
}
use serenedb_operator.Controller.Schedule.Laws.{surplus_splits, IsOlder, due_without_next}
use serenedb_operator.Tests.World.{env, backup, backup_at, scheduled}

abbrev running : Backup
running = set_running backup 9 "nightly-1"

abbrev run_history : History
run_history = (start env backup []).1

start_runs_example : Started env running snapshot_poll_interval run_history
unfolding start on_cluster on_session checkpointed request_snapshot created set_running open_session
    superuser_password lookup secret_name password_key name volume_snapshot
start_runs_example = start_runs env backup running snapshot_poll_interval [] run_history refl refl

step_of-Moves_example :
    (backup.status.phase ≢ phase_completed)
    × (backup.status.phase ≢ phase_failed)
    × Moves backup.status.phase running.status.phase
unfolding step_of start on_cluster on_session checkpointed request_snapshot created set_running
    open_session superuser_password lookup secret_name password_key name volume_snapshot
step_of-Moves_example =
    step_of-Moves env backup running (start env backup) snapshot_poll_interval [] run_history refl
      refl

abbrev items : List Backup
items = backup_at "a" 5 "Completed" ∷ backup_at "b" 7 "Completed" ∷ backup_at "c" 9 "Running" ∷ []

surplus_splits_example :
    (stay : List Backup) × (Perm
      (stay ++ surplus 1 items)
      (filter (λ b. b.status.phase == "Completed") items))
    × ((length stay ≡ 1) ⊎ ((length stay < 1) × (surplus 1 items ≡ [])))
    × (All (λ b. All (λ a. IsOlder a b) (surplus 1 items)) stay)
surplus_splits_example = surplus_splits 1 items

due_without_next_example : due scheduled (λ t. 0) 9 ≡ true
due_without_next_example = due_without_next scheduled (λ t. 0) 9 (λ t. refl)

abbrev due_tick : Outcome (ScheduledBackup × CtrlResult) × History
due_tick = tick_with env scheduled (ok (λ t. t + 1)) []

abbrev due_ticked : ScheduledBackup × CtrlResult
due_ticked = value_or (scheduled, no_requeue) due_tick.0

tick_with_creates_example :
    (count_of is_create due_tick.1 ≡ (if due scheduled (λ t. t + 1) 9 then 1 else 0))
    × (due due_ticked.0 (λ t. t + 1) 9
        ≡ (if due scheduled (λ t. t + 1) 9 then not_before 9 10 else due scheduled (λ t. t + 1) 9))
unfolding tick_with run_if_due create_backup backup_created prune prune_to delete_from delete_all
    deleted surplus newer sort insert due due_since ready_as set_ready add_second sub_time decimal
    new_backup count_of
tick_with_creates_example =
    tick_with_creates env scheduled due_ticked.0 (λ t. t + 1) due_ticked.1 [] due_tick.1 9 refl refl
