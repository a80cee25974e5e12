-- ===== src/Resources/Snapshot.antt =====
-- internal/resources/snapshot.go: the VolumeSnapshot of a Backup and what its status says.
use serenedb_operator.Prelude.{
  String, Bool, false, none, [], ◌∷◌, ◌==◌, if◌then◌else◌, ◌<>◌, get_or,
}
use serenedb_operator.Api.Meta.{new_meta}
use serenedb_operator.Api.Core.{VolumeSnapshot}
use serenedb_operator.Api.SereneDb.{SereneDb}
use serenedb_operator.Api.Backups.{Backup}
use serenedb_operator.Resources.Names.{name, managed_by, data_volume}

-- The claim that holds the data directory: the StatefulSet names the claim of its pod 0 so.
unfoldable pub data_claim_name : SereneDb → String
data_claim_name db =
    if db.spec.persistence.existing_claim == ""
    then data_volume <> "-" <> name db <> "-0"
    else db.spec.persistence.existing_claim

unfoldable pub volume_snapshot : Backup → String → VolumeSnapshot
volume_snapshot backup claim = record {
  metadata = new_meta backup.metadata.name backup.metadata.namespace (
      ("app.kubernetes.io/managed-by", managed_by)
      ∷ ("app.kubernetes.io/instance", backup.spec.cluster.name)
      ∷ []);
  claim_name = claim;
  class_name = backup.spec.volume_snapshot_class_name;
  ready_to_use = none;
  error_message = none;
}

-- Whether the snapshot is ready, and the failure, which is empty where there is none.
unfoldable pub snapshot_outcome : VolumeSnapshot → Bool × String
snapshot_outcome u = (get_or false u.ready_to_use, get_or "" u.error_message)
