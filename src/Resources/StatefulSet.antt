-- ===== src/Resources/StatefulSet.antt =====
-- internal/resources/statefulset.go: the StatefulSet of one replica and its data volume claim.
use serenedb_operator.Prelude.{
  String, Option, none, some, List, [], ◌∷◌, ◌==◌, if◌then◌else◌, get_or,
}
use serenedb_operator.Api.Meta.{new_meta}
use serenedb_operator.Api.Core.{
  StatefulSet, StatefulSetSpec, VolumeClaim, TypedReference, ClaimRetention, RetentionType,
  retain_claim, delete_claim,
}
use serenedb_operator.Api.SereneDb.{SereneDb, BootstrapSpec}
use serenedb_operator.Resources.Names.{
  name, labels, selector_labels, headless_service_name, data_volume,
}
use serenedb_operator.Resources.Pod.{pod_template}

unfoldable pub retention_type : String → RetentionType
retention_type value = if value == "Delete" then delete_claim else retain_claim

unfoldable pub retention_policy : SereneDb → ClaimRetention
unfolding retention_type
retention_policy db = record {
  when_deleted = retention_type db.spec.persistence.retention_policy.when_deleted;
  when_scaled = retention_type db.spec.persistence.retention_policy.when_scaled;
}

-- The access modes, where the spec lists none: ReadWriteOnce.
unfoldable pub claim_modes : List String → List String
claim_modes [] = "ReadWriteOnce" ∷ []
claim_modes (m ∷ modes) = m ∷ modes

unfoldable pub snapshot_source : Option BootstrapSpec → Option TypedReference
snapshot_source none = none
snapshot_source (some b) = some (record {
  api_group = "snapshot.storage.k8s.io";
  kind = "VolumeSnapshot";
  name = b.volume_snapshot_name;
})

unfoldable pub volume_claim_template : SereneDb → VolumeClaim
unfolding claim_modes snapshot_source
volume_claim_template db = record {
  name = data_volume;
  access_modes = claim_modes db.spec.persistence.access_modes;
  storage_class_name = db.spec.persistence.storage_class_name;
  storage_request = get_or "20Gi" db.spec.persistence.size;
  data_source = snapshot_source db.spec.bootstrap;
}

unfoldable pub stateful_set : SereneDb → String → StatefulSet
unfolding retention_policy volume_claim_template
stateful_set db config_hash =
    let spec0 : StatefulSetSpec = record {
      replicas = 1;
      service_name = headless_service_name db;
      selector = selector_labels db;
      update_strategy = "RollingUpdate";
      template = pod_template db config_hash;
      claim_retention = none;
      volume_claim_templates = [];
    } in
    record {
      metadata = new_meta (name db) db.metadata.namespace (labels db);
      spec =
          if db.spec.persistence.existing_claim == ""
          then record spec0 {
            claim_retention = some (retention_policy db);
            volume_claim_templates = volume_claim_template db ∷ [];
          }
          else spec0;
      status = record {
        observed_generation = 0;
        ready_replicas = 0;
        updated_replicas = 0;
        current_revision = "";
        update_revision = "";
      };
    }
