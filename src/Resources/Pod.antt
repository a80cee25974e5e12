-- ===== src/Resources/Pod.antt =====
-- The pod of internal/resources/statefulset.go: its container, ports, mounts and volumes.
pub mod Laws
pub mod Rolls
use serenedb_operator.Prelude.{
  ℕ, String, Bool, true, false, Option, none, some, List, [], ◌∷◌, ◌++◌, ◌==◌, if◌then◌else◌,
  non_empty_or, get_or,
}
use serenedb_operator.Prelude.Dict.{Dict, copy}
use serenedb_operator.Prelude.Decimal.{decimal}
use serenedb_operator.Api.Core.{
  Container, ContainerPort, VolumeMount, Volume, VolumeSource, EnvVarSource, Probe, PodTemplate,
  EnvVar,
}
use serenedb_operator.Api.SereneDb.{
  SereneDb, default_data_mount_path, image_uid, default_termination_grace_period_seconds,
}
use serenedb_operator.Resources.Names.{
  name, image, secret_name, password_key, postgres_port, http_port, selector_labels,
  config_hash_annotation, config_mount_path, tls_mount_path, container_name, data_volume,
  config_volume, tls_volume, postgres_port_name, http_port_name,
}

unfoldable pub container_ports : SereneDb → List ContainerPort
container_ports db =
    let pg : ContainerPort = record {
      name = postgres_port_name;
      container_port = postgres_port db;
      protocol = "TCP";
    } in
    let web : ContainerPort = record {
      name = http_port_name;
      container_port = http_port db;
      protocol = "TCP";
    } in
    if db.spec.listeners.http.enabled then pg ∷ web ∷ [] else pg ∷ []

unfoldable pub volume_mounts : SereneDb → List VolumeMount
volume_mounts db =
    let mounts : List VolumeMount =
      record { name = data_volume; mount_path = default_data_mount_path; read_only = false }
      ∷ record { name = config_volume; mount_path = config_mount_path; read_only = true }
      ∷ [] in
    if db.spec.tls.enabled
    then mounts ++ record { name = tls_volume; mount_path = tls_mount_path; read_only = true } ∷ []
    else mounts

-- The data volume comes from the claim template unless an existing claim is named.
unfoldable pub volumes : SereneDb → List Volume
volumes db =
    let vols : List Volume =
      record { name = config_volume; source = VolumeSource.config_map (name db) } ∷ [] in
    let with_tls =
      if db.spec.tls.enabled
      then vols
        ++ record { name = tls_volume; source = VolumeSource.secret db.spec.tls.secret_name } ∷ []
      else vols in
    if db.spec.persistence.existing_claim == ""
    then with_tls
    else with_tls
      ++ record {
        name = data_volume;
        source = VolumeSource.persistent_volume_claim db.spec.persistence.existing_claim;
      }
        ∷ []

unfoldable pub pg_is_ready : SereneDb → List String
pg_is_ready db =
    "pg_isready" ∷ "-h" ∷ "127.0.0.1" ∷ "-p" ∷ decimal (postgres_port db) ∷ "-U" ∷ "postgres" ∷ []

unfoldable pub pull_policy : SereneDb → String
pull_policy db = non_empty_or db.spec.image.pull_policy "IfNotPresent"

unfoldable pub termination_grace_period : SereneDb → ℕ
termination_grace_period db =
    get_or default_termination_grace_period_seconds db.spec.termination_grace_period_seconds

unfoldable pub container : SereneDb → Container
container db = record {
  name = container_name;
  image = image db;
  image_pull_policy = pull_policy db;
  security_context = record {
    run_as_user = image_uid;
    run_as_non_root = true;
    allow_privilege_escalation = false;
    drop_capabilities = "ALL" ∷ [];
    seccomp_profile = "RuntimeDefault";
  };
  args = container_name ∷ default_data_mount_path ∷ [];
  env =
      record {
        name = "POSTGRES_PASSWORD";
        source = EnvVarSource.secret_key_ref (secret_name db) (password_key db);
      }
      ∷ db.spec.env;
  ports = container_ports db;
  startup_probe = record {
    command = pg_is_ready db;
    initial_delay_seconds = 0;
    period_seconds = 5;
    timeout_seconds = 0;
    failure_threshold = 60;
  };
  readiness_probe = record {
    command = pg_is_ready db;
    initial_delay_seconds = 5;
    period_seconds = 5;
    timeout_seconds = 3;
    failure_threshold = 3;
  };
  liveness_probe = record {
    command = pg_is_ready db;
    initial_delay_seconds = 30;
    period_seconds = 10;
    timeout_seconds = 5;
    failure_threshold = 6;
  };
  resources = db.spec.resources;
  volume_mounts = volume_mounts db;
}

-- `maps.Copy` lets the labels and annotations of the spec replace those of the operator.
unfoldable pub pod_template : SereneDb → String → PodTemplate
pod_template db config_hash = record {
  labels = copy (selector_labels db) db.spec.pod_labels;
  annotations = copy ((config_hash_annotation, config_hash) ∷ []) db.spec.pod_annotations;
  termination_grace_period_seconds = termination_grace_period db;
  automount_service_account_token = false;
  image_pull_secrets = db.spec.image_pull_secrets;
  fs_group = 0;
  priority_class_name = db.spec.priority_class_name;
  containers = container db ∷ [];
  volumes = volumes db;
  node_selector = db.spec.node_selector;
  tolerations = db.spec.tolerations;
  affinity = db.spec.affinity;
}
