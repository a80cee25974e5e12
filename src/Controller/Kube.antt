-- ===== src/Controller/Kube.antt =====
-- What the reconcilers call and the repository does not implement: the Kubernetes API, the SQL server,
-- the clock, and functions of apimachinery, controller-runtime, cron and pgx. They are parameters. What
-- the outside answers may depend on all the calls that were made before, so an environment stands for
-- any server, with any failures and any other clients at work between two calls.
use serenedb_operator.Prelude.{ℕ, String, Bool, true, false, Option, List, ◌≡◌, ◌==◌}
use serenedb_operator.Errors.{Err, Result}
use serenedb_operator.SqlExec.{Target}
use serenedb_operator.Api.Meta.{
  Time, NamespacedName, ObjectMeta, Condition, ConditionStatus, condition_true,
}
use serenedb_operator.Api.Core.{
  Secret, ConfigMap, Service, StatefulSet, NetworkPolicy, VolumeSnapshot,
}
use serenedb_operator.Api.SereneDb.{SereneDb}
use serenedb_operator.Api.Dependents.{Database, DatabaseRole, ServerSecret}
use serenedb_operator.Api.Backups.{Backup, ScheduledBackup}

pub data Kind : Type 0 where
  a_serenedb a_database a_role a_server_secret a_backup a_scheduled_backup : Kind
  a_secret a_config_map a_service a_stateful_set a_network_policy a_snapshot : Kind

-- `client.Object`
pub data Object : Type 0 where
  serenedb : SereneDb → Object
  database : Database → Object
  role : DatabaseRole → Object
  server_secret : ServerSecret → Object
  backup : Backup → Object
  scheduled_backup : ScheduledBackup → Object
  secret : Secret → Object
  network_policy : NetworkPolicy → Object
  snapshot : VolumeSnapshot → Object

pub data Call : Type 0 where
  get_object : Kind → NamespacedName → Call
  list_backups : (namespace label : String) → Call
  create : Object → Call
  update : Object → Call
  patch : (original modified : Object) → Call
  patch_status : (original modified : Object) → Call
  delete : Object → Call
  create_or_update : Kind → NamespacedName → Call
  connect : Target → Call
  exec : String → Call
  query : String → Call
  close : Call

-- A call that was made, with the error that it returned.
pub record Event : Type 0 where
  pub call : Call
  pub error : Option Err

-- The latest event comes first.
abbrev pub History : Type 0
History = List Event

-- Functions of libraries, which answer alike at any time.
pub record Library : Type 0 where
  pub sanitize : String → String  -- pgx.Identifier{name}.Sanitize()
  pub set_status_condition : List Condition → Condition → List Condition
  pub is_status_condition_true : List Condition → String → Bool
  pub contains_finalizer : List String → String → Bool
  pub add_finalizer : List String → String → List String
  pub remove_finalizer : List String → String → List String
  pub set_controller_reference : (owner controlled : ObjectMeta) → Result ObjectMeta
  pub remove_controller_reference : (owner controlled : ObjectMeta) → Result ObjectMeta
  pub is_controlled_by : (controlled owner : ObjectMeta) → Bool
  pub parse_standard : String → Result (Time → Time)  -- the schedule's `Next`
  pub format_stamp : Time → String  -- now.UTC().Format("20060102-150405")
  pub format_rfc3339 : Time → String
  pub sha256_hex : String → String

pub record Env : Type 0 where
  pub lib : Library
  pub get_serenedb : History → NamespacedName → Result SereneDb
  pub get_database : History → NamespacedName → Result Database
  pub get_role : History → NamespacedName → Result DatabaseRole
  pub get_server_secret : History → NamespacedName → Result ServerSecret
  pub get_backup : History → NamespacedName → Result Backup
  pub get_scheduled_backup : History → NamespacedName → Result ScheduledBackup
  pub get_secret : History → NamespacedName → Result Secret
  pub get_snapshot : History → NamespacedName → Result VolumeSnapshot
  pub get_network_policy : History → NamespacedName → Result NetworkPolicy
  pub listed_backups : History → (namespace label : String) → Result (List Backup)
  -- the error of a call of create, update, patch, patch_status, delete, connect or exec
  pub answer : History → Call → Option Err
  pub rows : History → String → Result (List (List String))
  pub now : History → Time
  -- the order in which a Go map with these keys is iterated
  pub iterate : History → List String → List String
  pub rand : History → ℕ → Result ℕ
  -- `controllerutil.CreateOrUpdate` with its mutate function
  pub apply_config_map :
      History → NamespacedName → (ConfigMap → Result ConfigMap) → Result ConfigMap
  pub apply_service : History → NamespacedName → (Service → Result Service) → Result Service
  pub apply_stateful_set :
      History → NamespacedName → (StatefulSet → Result StatefulSet) → Result StatefulSet
  pub apply_network_policy :
      History → NamespacedName → (NetworkPolicy → Result NetworkPolicy) → Result NetworkPolicy

abbrev pub is_true : ConditionStatus → Bool
is_true condition_true = true
is_true _ = false

-- What the condition functions of apimachinery are documented to do, as far as the code relies on it.
pub record IsConditions (lib : Library) : Type 0 where
  pub true_of_set :
      (cs : List Condition) (c : Condition)
      → lib.is_status_condition_true (lib.set_status_condition cs c) c.kind ≡ is_true c.status
  pub other_of_set :
      (cs : List Condition) (c : Condition) (kind : String)
      → (kind == c.kind) ≡ false
      → lib.is_status_condition_true (lib.set_status_condition cs c) kind
        ≡ lib.is_status_condition_true cs kind
