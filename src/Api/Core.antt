-- ===== src/Api/Core.antt =====
-- The objects of the Kubernetes API that the operator makes, with the fields that it sets or reads.
use serenedb_operator.Prelude.{ℕ, String, Bool, Option, List}
use serenedb_operator.Prelude.Dict.{Dict}
use serenedb_operator.Api.Meta.{ObjectMeta}

-- The value of a variable is given, or read from a key of a Secret.
pub data EnvVarSource : Type 0 where
  literal_value : String → EnvVarSource
  secret_key_ref : (name key : String) → EnvVarSource

pub record EnvVar : Type 0 where
  pub name : String
  pub source : EnvVarSource

pub record Secret : Type 0 where
  pub metadata : ObjectMeta
  pub secret_type : String
  pub content : Dict String  -- the field `Data`, which `StringData` is merged into

pub record ConfigMap : Type 0 where
  pub metadata : ObjectMeta
  pub content : Dict String  -- the field `Data`

pub record ServicePort : Type 0 where
  pub name : String
  pub port : ℕ
  pub target_port : String
  pub protocol : String
  pub node_port : ℕ

pub record Service : Type 0 where
  pub metadata : ObjectMeta
  pub service_type : String
  pub cluster_ip : String
  pub ports : List ServicePort
  pub selector : Dict String
  pub publish_not_ready_addresses : Bool

pub record ContainerPort : Type 0 where
  pub name : String
  pub container_port : ℕ
  pub protocol : String

pub record VolumeMount : Type 0 where
  pub name : String
  pub mount_path : String
  pub read_only : Bool

pub data VolumeSource : Type 0 where
  config_map : (name : String) → VolumeSource
  secret : (secret_name : String) → VolumeSource
  persistent_volume_claim : (claim_name : String) → VolumeSource

pub record Volume : Type 0 where
  pub name : String
  pub source : VolumeSource

pub record Probe : Type 0 where
  pub command : List String
  pub initial_delay_seconds : ℕ
  pub period_seconds : ℕ
  pub timeout_seconds : ℕ
  pub failure_threshold : ℕ

pub record SecurityContext : Type 0 where
  pub run_as_user : ℕ
  pub run_as_non_root : Bool
  pub allow_privilege_escalation : Bool
  pub drop_capabilities : List String
  pub seccomp_profile : String

pub record Container : Type 0 where
  pub name : String
  pub image : String
  pub image_pull_policy : String
  pub security_context : SecurityContext
  pub args : List String
  pub env : List EnvVar
  pub ports : List ContainerPort
  pub startup_probe : Probe
  pub readiness_probe : Probe
  pub liveness_probe : Probe
  pub resources : String
  pub volume_mounts : List VolumeMount

pub record PodTemplate : Type 0 where
  pub labels : Dict String
  pub annotations : Dict String
  pub termination_grace_period_seconds : ℕ
  pub automount_service_account_token : Bool
  pub image_pull_secrets : List String
  pub fs_group : ℕ
  pub priority_class_name : String
  pub containers : List Container
  pub volumes : List Volume
  pub node_selector : Dict String
  pub tolerations : List String
  pub affinity : Option String

pub record TypedReference : Type 0 where
  pub api_group : String
  pub kind : String
  pub name : String

pub record VolumeClaim : Type 0 where
  pub name : String
  pub access_modes : List String
  pub storage_class_name : Option String
  pub storage_request : String
  pub data_source : Option TypedReference

pub data RetentionType : Type 0 where
  retain_claim delete_claim : RetentionType

pub record ClaimRetention : Type 0 where
  pub when_deleted : RetentionType
  pub when_scaled : RetentionType

pub record StatefulSetStatus : Type 0 where
  pub observed_generation : ℕ
  pub ready_replicas : ℕ
  pub updated_replicas : ℕ
  pub current_revision : String
  pub update_revision : String

pub record StatefulSetSpec : Type 0 where
  pub replicas : ℕ
  pub service_name : String
  pub selector : Dict String
  pub update_strategy : String
  pub template : PodTemplate
  pub claim_retention : Option ClaimRetention
  pub volume_claim_templates : List VolumeClaim

pub record StatefulSet : Type 0 where
  pub metadata : ObjectMeta
  pub spec : StatefulSetSpec
  pub status : StatefulSetStatus

pub record PolicyPort : Type 0 where
  pub protocol : String
  pub port : ℕ

pub record NetworkPolicy : Type 0 where
  pub metadata : ObjectMeta
  pub pod_selector : Dict String
  pub policy_types : List String
  pub ingress_ports : List PolicyPort

-- A VolumeSnapshot, which the operator handles as an unstructured object; the fields of the status
-- are there once the snapshot controller has written them.
pub record VolumeSnapshot : Type 0 where
  pub metadata : ObjectMeta
  pub claim_name : String
  pub class_name : Option String
  pub ready_to_use : Option Bool
  pub error_message : Option String
