-- ===== src/Api/SereneDb.antt =====
-- api/v1alpha1/serenedb_types.go. Numbers that the schema bounds from below by 0 or 1 are ℕ. What the
-- operator copies and never reads (quantities, tolerations, affinities, resource requirements) is
-- the text of its serialisation.
use serenedb_operator.Prelude.{ℕ, String, Bool, Option, List}
use serenedb_operator.Prelude.Dict.{Dict}
use serenedb_operator.Api.Meta.{ObjectMeta, Condition}
use serenedb_operator.Api.Core.{EnvVar}

abbrev pub default_image_repository : String
default_image_repository = "serenedb/serenedb"

abbrev pub default_image_tag : String
default_image_tag = "26.09.2"

abbrev pub default_postgres_port : ℕ
default_postgres_port = 7890

abbrev pub default_http_port : ℕ
default_http_port = 9200

abbrev pub default_data_mount_path : String
default_data_mount_path = "/var/lib/serenedb"

abbrev pub default_password_key : String
default_password_key = "postgres-password"

abbrev pub image_uid : ℕ
image_uid = 999

abbrev pub default_termination_grace_period_seconds : ℕ
default_termination_grace_period_seconds = 120

pub record ImageSpec : Type 0 where
  pub repository : String
  pub tag : String
  pub pull_policy : String

pub record AuthSpec : Type 0 where
  pub existing_secret : String
  pub password_key : String

pub record PostgresListenerSpec : Type 0 where
  pub port : ℕ
  pub ssl_mode : String

pub record HttpListenerSpec : Type 0 where
  pub enabled : Bool
  pub port : ℕ
  pub cors_origins : String

pub record ListenersSpec : Type 0 where
  pub postgres : PostgresListenerSpec
  pub http : HttpListenerSpec

pub record TlsSpec : Type 0 where
  pub enabled : Bool
  pub secret_name : String
  pub min_version : String

pub record ConfigSpec : Type 0 where
  pub log_level : String
  pub max_connections : ℕ
  pub cpu_threads : ℕ
  pub io_threads : ℕ
  pub background_threads : ℕ
  pub auth_timeout : String
  pub idle_session_timeout : String
  pub pg_max_message_bytes : ℕ
  pub hba : String
  pub extra_flags : List String

pub record RetentionPolicySpec : Type 0 where
  pub when_deleted : String
  pub when_scaled : String

pub record PersistenceSpec : Type 0 where
  pub size : Option String
  pub storage_class_name : Option String
  pub access_modes : List String
  pub existing_claim : String
  pub retention_policy : RetentionPolicySpec

pub record ServiceSpec : Type 0 where
  pub service_type : String
  pub node_port : ℕ
  pub annotations : Dict String

pub record NetworkPolicySpec : Type 0 where
  pub enabled : Bool

pub record BootstrapSpec : Type 0 where
  pub volume_snapshot_name : String

pub record SereneDbSpec : Type 0 where
  pub bootstrap : Option BootstrapSpec
  pub image : ImageSpec
  pub image_pull_secrets : List String
  pub auth : AuthSpec
  pub listeners : ListenersSpec
  pub tls : TlsSpec
  pub config : ConfigSpec
  pub persistence : PersistenceSpec
  pub resources : String
  pub termination_grace_period_seconds : Option ℕ
  pub service : ServiceSpec
  pub network_policy : NetworkPolicySpec
  pub env : List EnvVar
  pub pod_annotations : Dict String
  pub pod_labels : Dict String
  pub node_selector : Dict String
  pub tolerations : List String
  pub affinity : Option String
  pub priority_class_name : String

pub record SereneDbStatus : Type 0 where
  pub observed_generation : ℕ
  pub conditions : List Condition
  pub ready_replicas : ℕ
  pub version : String
  pub secret_name : String
  pub host : String
  pub port : ℕ

pub record SereneDb : Type 0 where
  pub metadata : ObjectMeta
  pub spec : SereneDbSpec
  pub status : SereneDbStatus
