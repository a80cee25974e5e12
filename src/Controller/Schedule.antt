-- ===== src/Controller/Schedule.antt =====
-- internal/controller/scheduledbackup_controller.go
pub mod Laws
pub mod Ticks
use serenedb_operator.Prelude.{
  ℕ, zero, ◌+◌, ◌-◌, ◌*◌, ◌^◌, String, Bool, true, false, Option, none, some, List, [], ◌∷◌, not,
  ltb, ◌==ℕ◌, if◌then◌else◌, ◌==◌, ◌<>◌, filter, drop,
}
use serenedb_operator.Prelude.Int.{ℤ, pos, negsuc, sub_ℕ}
use serenedb_operator.Prelude.Sort.{sort, str_less}
use serenedb_operator.Errors.{
  Err, Result, ok, err, wrapped, error_message, is_not_found, is_already_exists,
}
use serenedb_operator.Api.Meta.{
  NamespacedName, Time, Condition, ConditionStatus, condition_true, condition_false, new_meta,
}
use serenedb_operator.Api.Backups.{
  Backup, ScheduledBackup, ScheduledBackupStatus, scheduled_backup_label, phase_completed,
}
use serenedb_operator.Controller.Kube.{
  Env, Library, get_object, a_scheduled_backup, scheduled_backup, backup, create, delete,
  list_backups, patch_status,
}
use serenedb_operator.Controller.Op.{
  Op, pure, fail, panic, perform, ask, CtrlResult, no_requeue, second, ignore_not_found, ◌>>=◌,
  ◌>>◌,
}
use serenedb_operator.Prelude.{is_some}
use serenedb_operator.Controller.Outcome.{set_ready}
use serenedb_operator.Controller.Database.{status_patched}

-- `u.Sub(t)`: a time.Duration of 64 bits, which saturates.
unfoldable pub sub_time : Time → Time → ℤ
sub_time u t =
    if ltb u t
    then (if ltb (2 ^ 63) (t - u) then negsuc (2 ^ 63 - 1) else sub_ℕ u t)
    else if ltb (2 ^ 63 - 1) (u - t)
    then pos (2 ^ 63 - 1)
    else pos (u - t)

-- `d + time.Second`, which wraps around.
unfoldable pub add_second : ℤ → ℤ
add_second (pos n) =
    if ltb (n + second) (2 ^ 63) then pos (n + second) else negsuc (2 ^ 64 - (n + second) - 1)
add_second (negsuc n) = sub_ℕ second (n + 1)

-- The order in which `prune` sorts: the newest first, and by name downwards at the same time.
unfoldable pub newer : Backup → Backup → Bool
newer a b =
    if a.metadata.creation_timestamp ==ℕ b.metadata.creation_timestamp
    then str_less b.metadata.name a.metadata.name
    else ltb b.metadata.creation_timestamp a.metadata.creation_timestamp

abbrev pub is_completed : Backup → Bool
is_completed b = b.status.phase == phase_completed

-- The completed backups beyond the first `keep`, newest first.
unfoldable pub surplus : ℕ → List Backup → List Backup
surplus keep items = drop keep (sort newer (filter is_completed items))

abbrev pub not_before : Time → Time → Bool
not_before now next = not (ltb now next)

-- Whether a Backup is due; `next` is the schedule's function.
unfoldable pub due_since : ScheduledBackup → (Time → Time) → Time → Option Time → Bool
due_since s next now none =
    if s.spec.immediate then true else not_before now (next s.metadata.creation_timestamp)
due_since s next now (some last) = not_before now (next last)

unfoldable pub due : ScheduledBackup → (Time → Time) → Time → Bool
due s next now = due_since s next now s.status.last_schedule_time

unfoldable pub new_backup : ScheduledBackup → String → Backup
new_backup s stamp = record {
  metadata =
      new_meta (s.metadata.name <> "-" <> stamp) s.metadata.namespace
        ((scheduled_backup_label, s.metadata.name) ∷ []);
  spec = record {
    cluster = s.spec.cluster;
    method = s.spec.method;
    volume_snapshot_class_name = s.spec.volume_snapshot_class_name;
  };
  status = record {
    phase = "";
    started_at = none;
    completed_at = none;
    snapshot_name = "";
    error = "";
  };
}

abbrev pub with_next : ScheduledBackup → Option Time → ScheduledBackup
with_next s next = record s { status = record (s.status) { next_schedule_time = next } }

abbrev pub with_last : ScheduledBackup → Time → String → ScheduledBackup
with_last s now name = record s {
  status = record (s.status) { last_schedule_time = some now; last_backup = name };
}

module _ (env : Env) where
  unfoldable pub ready_as :
      ScheduledBackup → ConditionStatus → (reason message : String) → ScheduledBackup
  ready_as s status reason message = record s {
    status = record (s.status) {
      conditions =
          set_ready env.lib s.status.conditions s.metadata.generation status reason message;
    };
  }

  -- The answer to the creation: a Backup that is there already is as good as a new one.
  unfoldable pub backup_created :
      ScheduledBackup → Time → Backup → Result (Unit {0}) → Op ScheduledBackup
  backup_created s now b (ok u) = pure (with_last s now b.metadata.name)
  backup_created s now b (err e) =
      if is_already_exists e
      then pure (with_last s now b.metadata.name)
      else fail (wrapped "create backup" e)

  unfoldable pub create_backup : ScheduledBackup → Time → Op ScheduledBackup
  create_backup s now = do
    let b = new_backup s (env.lib.format_stamp now)
    answer ← ask env (create (backup b))
    backup_created s now b answer

  unfoldable pub deleted : Backup → Result (Unit {0}) → Op (Unit {0})
  deleted b (ok u) = pure tt
  deleted b (err e) =
      if is_not_found e then pure tt else fail (wrapped ("delete backup " <> b.metadata.name) e)

  unfoldable pub delete_all : List Backup → Op (Unit {0})
  delete_all [] = pure tt
  delete_all (b ∷ rest) = do answer ← ask env (delete (backup b)); deleted b answer; delete_all rest

  abbrev listed : Result (List Backup) → Op (List Backup)
  listed (ok items) = pure items
  listed (err e) = fail (wrapped "list backups" e)

  -- The loop that deletes; from a negative index on it reads `completed[-1]`, which panics.
  unfoldable pub delete_from : ℤ → List Backup → Op (Unit {0})
  delete_from (pos keep) items = delete_all (surplus keep items)
  delete_from (negsuc n) items = panic

  -- Deletes the completed Backups of this schedule beyond `keep`.
  unfoldable pub prune_to : ScheduledBackup → Option ℤ → Op (Unit {0})
  prune_to s none = pure tt
  prune_to s (some keep) = do
    got ←
        perform (list_backups s.metadata.namespace s.metadata.name)
          (λ h. env.listed_backups h s.metadata.namespace s.metadata.name)
    items ← listed got
    delete_from keep items

  unfoldable pub prune : ScheduledBackup → Op (Unit {0})
  prune s = prune_to s s.spec.keep

  unfoldable pub run_if_due : ScheduledBackup → Time → Bool → Op ScheduledBackup
  run_if_due s now is_due =
      if is_due then (do s' ← create_backup s now; prune s'; pure s') else pure s

  abbrev clock : Op Time
  clock h = pure (env.now h) h

  -- `tick` with the parsed schedule.
  unfoldable pub tick_with :
      ScheduledBackup → Result (Time → Time) → Op (ScheduledBackup × CtrlResult)
  tick_with s (err e) =
      pure (
        with_next (ready_as s condition_false "InvalidSchedule" (error_message e)) none,
        no_requeue,
      )
  tick_with s (ok next) =
      if s.spec.suspend
      then pure (
        with_next
            (ready_as s condition_true "Suspended" "no new backups are created while suspended")
            none,
        no_requeue,
      )
      else do
        now ← clock
        s' ← run_if_due s now (due s next now)
        let upcoming = next now
        pure (
          ready_as (with_next s' (some upcoming)) condition_true "Scheduled"
              ("next backup at " <> env.lib.format_rfc3339 upcoming),
          record { requeue_after = add_second (sub_time upcoming now) },
        )

  unfoldable pub tick : ScheduledBackup → Op (ScheduledBackup × CtrlResult)
  tick s = tick_with s (env.lib.parse_standard s.spec.schedule)

  -- `Reconcile` behind the read of the object.
  unfoldable pub reconcile_object : ScheduledBackup → Op CtrlResult
  reconcile_object s = if is_some s.metadata.deletion_timestamp then pure no_requeue else do
    (s', result) ← tick s
    answer ← ask env (patch_status (scheduled_backup s) (scheduled_backup s'))
    status_patched result answer

  abbrev pub after_get : Result ScheduledBackup → Op CtrlResult
  after_get (ok s) = reconcile_object s
  after_get (err e) = ignore_not_found e

  unfoldable pub reconcile : NamespacedName → Op CtrlResult
  reconcile request = do
    got ← perform (get_object a_scheduled_backup request) (λ h. env.get_scheduled_backup h request)
    after_get got
