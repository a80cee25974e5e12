-- ===== src/Tests/World.antt =====
-- One environment and one object of each kind: the concrete inputs of the examples.
use serenedb_operator.Resources.Secret.{password_alphabet}
use serenedb_operator.Resources.Secret.Laws.{DrawsBelow}
use Prim.Native.String.{len}
use serenedb_operator.Prelude.Int.{pos}
use serenedb_operator.Prelude.{
  ◌<◌, ℕ, ◌+◌, ◌≡◌, refl, String, Bool, true, false, none, some, arith, ◌∷◌, List, [], ◌++◌,
  if◌then◌else◌, not, ◌==◌, filter, any, eq_refl, eq_iff,
}
use serenedb_operator.Prelude.Decimal.{decimal}
use serenedb_operator.Errors.{Result, ok, err, api, not_found}
use serenedb_operator.SqlExec.Quoting.{double_quoted}
use serenedb_operator.Api.Meta.{
  ObjectMeta, Condition, condition_true, condition_ready, new_meta, reclaim_delete,
}
use serenedb_operator.Api.Core.{Secret}
use serenedb_operator.Api.SereneDb.{SereneDb, SereneDbSpec}
use serenedb_operator.Api.Dependents.{Database, DatabaseRole, ServerSecret}
use serenedb_operator.Api.Backups.{Backup, ScheduledBackup}
use serenedb_operator.Controller.Kube.{History, Env, Library, IsConditions, is_true}

abbrev pub set_condition : List Condition → Condition → List Condition
set_condition cs c = c ∷ filter (λ d. not (d.kind == c.kind)) cs

abbrev pub holds_condition : List Condition → String → Bool
holds_condition [] kind = false
holds_condition (c ∷ cs) kind = if c.kind == kind then is_true c.status else holds_condition cs kind

abbrev pub library : Library
library = record {
  sanitize = double_quoted;
  set_status_condition = set_condition;
  is_status_condition_true = holds_condition;
  contains_finalizer = λ fs f. any (λ g. g == f) fs;
  add_finalizer = λ fs f. fs ++ f ∷ [];
  remove_finalizer = λ fs f. filter (λ g. not (g == f)) fs;
  set_controller_reference = λ owner m.
      ok (record m { owner_references = record { uid = owner.uid; controller = true } ∷ [] });
  remove_controller_reference = λ owner m. ok (record m { owner_references = [] });
  is_controlled_by = λ m owner. any (λ r. r.uid == owner.uid) m.owner_references;
  parse_standard = λ s. ok (λ t. t + 3_600_000_000_000);
  format_stamp = decimal;
  format_rfc3339 = decimal;
  sha256_hex = λ s. s;
}

other_lem :
    (cs : List Condition) (c : Condition) (kind : String)
    → (kind == c.kind) ≡ false
    → holds_condition (filter (λ d. not (d.kind == c.kind)) cs) kind ≡ holds_condition cs kind
other_lem [] c kind h = refl
other_lem (d ∷ cs) c kind h =
    ground
      (arith, other_lem cs c kind h, eq_iff d.kind c.kind, eq_iff d.kind kind, eq_iff kind c.kind)

pub library-IsConditions : IsConditions library
library-IsConditions = record {
  true_of_set = λ cs c. ground (arith, eq_refl c.kind);
  other_of_set =
      λ cs c kind h. ground (arith, other_lem cs c kind h, eq_iff kind c.kind, eq_iff c.kind kind);
}

abbrev pub spec : SereneDbSpec
spec = record {
  bootstrap = none;
  image = record { repository = ""; tag = ""; pull_policy = "" };
  image_pull_secrets = [];
  auth = record { existing_secret = ""; password_key = "" };
  listeners = record {
    postgres = record { port = 0; ssl_mode = "" };
    http = record { enabled = true; port = 0; cors_origins = "" };
  };
  tls = record { enabled = true; secret_name = "certs"; min_version = "" };
  config = record {
    log_level = "";
    max_connections = 100;
    cpu_threads = 0;
    io_threads = 0;
    background_threads = 0;
    auth_timeout = "";
    idle_session_timeout = "";
    pg_max_message_bytes = 0;
    hba = "";
    extra_flags = [];
  };
  persistence = record {
    size = none;
    storage_class_name = none;
    access_modes = [];
    existing_claim = "";
    retention_policy = record { when_deleted = "Delete"; when_scaled = "Retain" };
  };
  resources = "";
  termination_grace_period_seconds = none;
  service = record { service_type = "NodePort"; node_port = 30000; annotations = [] };
  network_policy = record { enabled = true };
  env = [];
  pod_annotations = [];
  pod_labels = ("app.kubernetes.io/instance", "other") ∷ [];
  node_selector = [];
  tolerations = [];
  affinity = none;
  priority_class_name = "";
}

abbrev pub meta : ObjectMeta
meta = new_meta "main" "prod" []

abbrev pub ready : List Condition
ready =
    record {
      kind = condition_ready;
      status = condition_true;
      reason = "PodReady";
      message = "";
      observed_generation = 1;
    }
    ∷ []

abbrev pub db : SereneDb
db = record {
  metadata = meta;
  spec = spec;
  status = record {
    observed_generation = 1;
    conditions = ready;
    ready_replicas = 1;
    version = "";
    secret_name = "main";
    host = "main.prod.svc";
    port = 7890;
  };
}

abbrev pub password_secret : Secret
password_secret = record {
  metadata = meta;
  secret_type = "Opaque";
  content = ("postgres-password", "s3cret") ∷ [];
}

abbrev pub database : Database
database = record {
  metadata = new_meta "app" "prod" [];
  spec = record { cluster = record { name = "main" }; name = ""; reclaim_policy = reclaim_delete };
  status = record { observed_generation = 0; conditions = [] };
}

abbrev pub role : DatabaseRole
role = record {
  metadata = new_meta "writer" "prod" [];
  spec = record {
    cluster = record { name = "main" };
    name = "";
    login = true;
    superuser = false;
    create_db = false;
    create_role = false;
    inherit = none;
    connection_limit = none;
    valid_until = "";
    password_secret = none;
    in_roles = "staff" ∷ "team" ∷ [];
    reclaim_policy = reclaim_delete;
  };
  status = record { observed_generation = 0; conditions = [] };
  password_secret_version = "";
}

abbrev pub server_secret : ServerSecret
server_secret = record {
  metadata = new_meta "s3" "prod" [];
  spec = record {
    cluster = record { name = "main" };
    name = "";
    secret_type = "s3";
    scope = "";
    options = ("region", "eu") ∷ [];
    values_from = none;
  };
  status = record { observed_generation = 0; conditions = [] };
  values_secret_version = "";
}

abbrev pub backup_at : String → ℕ → String → Backup
backup_at name created phase = record {
  metadata = record (new_meta name "prod" []) { creation_timestamp = created };
  spec = record {
    cluster = record { name = "main" };
    method = "";
    volume_snapshot_class_name = none;
  };
  status = record {
    phase = phase;
    started_at = none;
    completed_at = none;
    snapshot_name = "";
    error = "";
  };
}

abbrev pub backup : Backup
backup = backup_at "nightly-1" 5 ""

abbrev pub scheduled : ScheduledBackup
scheduled = record {
  metadata = new_meta "nightly" "prod" [];
  spec = record {
    cluster = record { name = "main" };
    schedule = "0 3 * * *";
    suspend = false;
    immediate = false;
    keep = some (pos 1);
    method = "";
    volume_snapshot_class_name = none;
  };
  status = record {
    last_schedule_time = some 7;
    next_schedule_time = none;
    last_backup = "";
    conditions = [];
  };
}

abbrev missing : {A : Type 0} → Result A
missing = err (api not_found "not found")

abbrev draw_zero : Result ℕ
draw_zero = ok 0

abbrev pub env : Env
env = record {
  lib = library;
  get_serenedb = λ h key. ok db;
  get_database = λ h key. ok database;
  get_role = λ h key. ok role;
  get_server_secret = λ h key. ok server_secret;
  get_backup = λ h key. ok backup;
  get_scheduled_backup = λ h key. ok scheduled;
  get_secret = λ h key. ok password_secret;
  get_snapshot = λ h key. missing;
  get_network_policy = λ h key. missing;
  listed_backups = λ h ns label. ok (backup ∷ []);
  answer = λ h c. none;
  rows = λ h s. ok (("guest" ∷ []) ∷ ("staff" ∷ []) ∷ []);
  now = λ h. 9;
  iterate = λ h keys. keys;
  rand = λ h k. draw_zero;
  apply_config_map = λ h key f. missing;
  apply_service = λ h key f. missing;
  apply_stateful_set = λ h key f. missing;
  apply_network_policy = λ h key f. missing;
}

no_other : (n : ℕ) → draw_zero ≡ ok n → n < len password_alphabet
no_other n e = ground arith

-- Every draw of the example environment is 0.
pub env-DrawsBelow : (h : History) → DrawsBelow (env.rand h)
env-DrawsBelow h k n e = no_other n e
