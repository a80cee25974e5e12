-- ===== src/Manager/Setup.antt =====
-- The `SetupWithManager` methods of internal/controller.
use serenedb_operator.Errors.{Err}
use serenedb_operator.Prelude.{
  true, if◌then◌else◌, false, Bool, String, Option, none, some, List, [], ◌∷◌,
}
use serenedb_operator.Api.Dependents.{PasswordSecretRef}
use serenedb_operator.Controller.Kube.{
  Kind, database, role, server_secret, backup, a_serenedb, a_database, a_role, a_server_secret,
  a_backup, a_scheduled_backup, a_secret, a_config_map, a_service, a_stateful_set, a_network_policy,
  a_snapshot,
}
use serenedb_operator.Manager.{
  Manager, Setup, Extract, Watch, Controller, ask, index_field, complete, rest_mapping, ◌and_then◌,
}

abbrev pub cluster_index : String
cluster_index = "spec.cluster.name"

abbrev pub secret_index : String
secret_index = "spec.secretName"

abbrev pub cluster_of_database : Extract
cluster_of_database (database d) = some (d.spec.cluster.name ∷ [])
cluster_of_database _ = none

abbrev pub cluster_of_role : Extract
cluster_of_role (role r) = some (r.spec.cluster.name ∷ [])
cluster_of_role _ = none

abbrev pub cluster_of_server_secret : Extract
cluster_of_server_secret (server_secret s) = some (s.spec.cluster.name ∷ [])
cluster_of_server_secret _ = none

abbrev pub cluster_of_backup : Extract
cluster_of_backup (backup b) = some (b.spec.cluster.name ∷ [])
cluster_of_backup _ = none

abbrev pub names_of_password : Option PasswordSecretRef → List String
names_of_password none = []
names_of_password (some ref) = ref.name ∷ []

abbrev pub secret_of_role : Extract
secret_of_role (role r) = some (names_of_password r.spec.password_secret)
secret_of_role _ = none

abbrev pub names_of_values : Option String → List String
names_of_values none = []
names_of_values (some name) = name ∷ []

abbrev pub secret_of_server_secret : Extract
secret_of_server_secret (server_secret s) = some (names_of_values s.spec.values_from)
secret_of_server_secret _ = none

abbrev pub on_serenedb : Kind → Watch
on_serenedb kind = record { watched = a_serenedb; listed = kind; index = cluster_index }

abbrev pub on_secret : Kind → Watch
on_secret kind = record { watched = a_secret; listed = kind; index = secret_index }

abbrev pub serenedb_controller : Controller
serenedb_controller = record {
  for_kind = a_serenedb;
  owns = a_stateful_set ∷ a_service ∷ a_config_map ∷ a_secret ∷ a_network_policy ∷ [];
  watches = [];
  name = "serenedb";
}

abbrev pub database_controller : Controller
database_controller = record {
  for_kind = a_database;
  owns = [];
  watches = on_serenedb a_database ∷ [];
  name = "database";
}

abbrev pub role_controller : Controller
role_controller = record {
  for_kind = a_role;
  owns = [];
  watches = on_serenedb a_role ∷ on_secret a_role ∷ [];
  name = "databaserole";
}

abbrev pub server_secret_controller : Controller
server_secret_controller = record {
  for_kind = a_server_secret;
  owns = [];
  watches = on_serenedb a_server_secret ∷ on_secret a_server_secret ∷ [];
  name = "serversecret";
}

-- The snapshots are watched where the cluster serves their API.
abbrev pub owned_snapshots : Bool → List Kind
owned_snapshots served = if served then a_snapshot ∷ [] else []

abbrev pub backup_controller : Bool → Controller
backup_controller served = record {
  for_kind = a_backup;
  owns = owned_snapshots served;
  watches = on_serenedb a_backup ∷ [];
  name = "backup";
}

abbrev pub scheduled_backup_controller : Controller
scheduled_backup_controller = record {
  for_kind = a_scheduled_backup;
  owns = [];
  watches = [];
  name = "scheduledbackup";
}

module _ (m : Manager) where
  unfoldable pub setup_serenedb : Setup
  setup_serenedb = ask m (complete serenedb_controller)

  unfoldable pub setup_database : Setup
  setup_database =
      ask m (index_field a_database cluster_index cluster_of_database)
      and_then ask m (complete database_controller)

  unfoldable pub setup_role : Setup
  setup_role =
      ask m (index_field a_role cluster_index cluster_of_role)
      and_then ask m (index_field a_role secret_index secret_of_role)
      and_then ask m (complete role_controller)

  unfoldable pub setup_server_secret : Setup
  setup_server_secret =
      ask m (index_field a_server_secret cluster_index cluster_of_server_secret)
      and_then ask m (index_field a_server_secret secret_index secret_of_server_secret)
      and_then ask m (complete server_secret_controller)

  -- `if _, err := mgr.GetRESTMapper().RESTMapping(…); err == nil`: an error is logged only.
  abbrev pub is_served : Option Err → Bool
  is_served none = true
  is_served (some e) = false

  abbrev pub complete_backup : Setup
  complete_backup t =
      let (e, t1) = ask m (rest_mapping a_snapshot) t in
      ask m (complete (backup_controller (is_served e))) t1

  unfoldable pub setup_backup : Setup
  setup_backup =
      ask m (index_field a_backup cluster_index cluster_of_backup) and_then complete_backup

  unfoldable pub setup_scheduled_backup : Setup
  setup_scheduled_backup = ask m (complete scheduled_backup_controller)

  -- The part of `main` that sets up the controllers.
  unfoldable pub setup_controllers : Setup
  setup_controllers =
      setup_serenedb and_then setup_database and_then setup_role and_then setup_server_secret
      and_then setup_backup and_then setup_scheduled_backup
