-- ===== src/Api/Backups.antt =====
-- api/v1alpha1/backup_types.go and scheduledbackup_types.go.
use serenedb_operator.Prelude.Int.{ℤ}
use serenedb_operator.Prelude.{String, Bool, Option, List}
use serenedb_operator.Api.Meta.{ObjectMeta, ClusterRef, Condition, Time}

abbrev pub backup_method_volume_snapshot : String
backup_method_volume_snapshot = "volumeSnapshot"

abbrev pub scheduled_backup_label : String
scheduled_backup_label = "database.serenedb.com/scheduled-backup"

abbrev pub phase_pending : String
phase_pending = "Pending"

abbrev pub phase_running : String
phase_running = "Running"

abbrev pub phase_completed : String
phase_completed = "Completed"

abbrev pub phase_failed : String
phase_failed = "Failed"

pub record BackupSpec : Type 0 where
  pub cluster : ClusterRef
  pub method : String
  pub volume_snapshot_class_name : Option String

pub record BackupStatus : Type 0 where
  pub phase : String
  pub started_at : Option Time
  pub completed_at : Option Time
  pub snapshot_name : String
  pub error : String

pub record Backup : Type 0 where
  pub metadata : ObjectMeta
  pub spec : BackupSpec
  pub status : BackupStatus

pub record ScheduledBackupSpec : Type 0 where
  pub cluster : ClusterRef
  pub schedule : String
  pub suspend : Bool
  pub immediate : Bool
  pub keep : Option ℤ
  pub method : String
  pub volume_snapshot_class_name : Option String

pub record ScheduledBackupStatus : Type 0 where
  pub last_schedule_time : Option Time
  pub next_schedule_time : Option Time
  pub last_backup : String
  pub conditions : List Condition

pub record ScheduledBackup : Type 0 where
  pub metadata : ObjectMeta
  pub spec : ScheduledBackupSpec
  pub status : ScheduledBackupStatus
