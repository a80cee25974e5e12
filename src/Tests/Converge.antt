-- ===== src/Tests/Converge.antt =====
-- Examples: a server that has the databases which the statements made, and reconciles of all kinds.
use serenedb_operator.SqlExec.{double, has_nul, literal}
use serenedb_operator.Statements.{database_exists}
use serenedb_operator.Prelude.Dict.{lookup}
use serenedb_operator.Controller.Every.{
  reconcile_object_retains, reconcile_object_stores_first, reconcile-IsBalanced,
}
use serenedb_operator.Errors.{ok}
use serenedb_operator.Controller.Trace.{is_connect, is_sql, count_of}
use serenedb_operator.Controller.Session.Laws.{IsBalanced}
use serenedb_operator.Controller.Session.{superuser_password, open_session}
use serenedb_operator.Api.Meta.{dependent_finalizer, NamespacedName}
use serenedb_operator.Api.Dependents.{DatabaseRole, Database}
use serenedb_operator.Prelude.{
  ◌≡◌, refl, Bool, true, false, some, List, [], ◌∷◌, if◌then◌else◌, String, Bool-cases, inl, inr,
  arith,
}
use serenedb_operator.Controller.Kube.{Env, History}
use serenedb_operator.Statements.{create_database, drop_database, identifier}
use serenedb_operator.Resources.Names.{password_key, secret_name, name}
use serenedb_operator.SqlExec.Quoting.{double_quoted}
use serenedb_operator.Tests.World.{env, database, role, server_secret}
use serenedb_operator.Controller.Database
use serenedb_operator.Controller.Role
use serenedb_operator.Controller.ServerSecret
use serenedb_operator.Controller.Backup
use serenedb_operator.Controller.Database.Converges.{has_database, IsServer, apply_reaches, is_exec}

abbrev answers : Bool → List (List String)
answers has = if has then ("1" ∷ []) ∷ [] else []

abbrev server : Env
server = record env { rows = λ h q. ok (answers (has_database env.lib.sanitize "app" false h)) }

server-IsServer : IsServer server "app" false
server-IsServer h q rows p r = elim (Bool-cases (has_database env.lib.sanitize "app" false h)) [
  | inl e ↦ ground arith
  | inr e ↦ ground arith
]

abbrev once : History
once = (Database.apply server database "app" []).1

abbrev twice : History
twice = (Database.apply server database "app" once).1

abbrev dropped : History
dropped = (Database.drop_the_database server "app" once).1

apply_reaches_example :
    (has_database env.lib.sanitize "app" false once ≡ true)
    × (count_of is_exec twice ≡ count_of is_exec once)
    × (has_database env.lib.sanitize "app" false dropped ≡ false)
unfolding Database.apply Database.create_if_missing Database.drop_the_database
    Database.drop_if_present open_session superuser_password has_database lookup database_exists
    literal has_nul double password_key secret_name create_database drop_database identifier
    double_quoted name
apply_reaches_example =
    apply_reaches server "app" false server-IsServer database [] once twice once dropped refl refl
      refl

abbrev request : NamespacedName
request = record { namespace = "prod"; name = "app" }

reconcile-IsBalanced_example :
    IsBalanced (Database.reconcile env request)
    × IsBalanced (Role.reconcile env request)
    × IsBalanced (ServerSecret.reconcile env request)
    × IsBalanced (Backup.reconcile env request)
reconcile-IsBalanced_example = reconcile-IsBalanced env request

reconcile_object_stores_first_example :
    (count_of is_sql (Database.reconcile_object env database []).1 ≡ count_of is_sql [])
    × (count_of is_sql (Role.reconcile_object env role []).1 ≡ count_of is_sql [])
    × (count_of is_sql (ServerSecret.reconcile_object env server_secret []).1 ≡ count_of is_sql [])
reconcile_object_stores_first_example =
    reconcile_object_stores_first env database role server_secret [] refl refl refl refl refl refl

abbrev kept_database : Database
kept_database = record database {
  metadata = record (database.metadata) {
    deletion_timestamp = some 9;
    finalizers = dependent_finalizer ∷ [];
  };
  spec = record (database.spec) { reclaim_policy = "Retain" };
}

abbrev kept_role : DatabaseRole
kept_role = record role {
  metadata = record (role.metadata) {
    deletion_timestamp = some 9;
    finalizers = dependent_finalizer ∷ [];
  };
  spec = record (role.spec) { reclaim_policy = "Retain" };
}

reconcile_object_retains_example :
    (count_of is_sql (Database.reconcile_object env kept_database []).1 ≡ count_of is_sql [])
    × (count_of is_connect (Database.reconcile_object env kept_database []).1
        ≡ count_of is_connect [])
    × (count_of is_sql (Role.reconcile_object env kept_role []).1 ≡ count_of is_sql [])
    × (count_of is_connect (Role.reconcile_object env kept_role []).1 ≡ count_of is_connect [])
reconcile_object_retains_example =
    reconcile_object_retains env kept_database kept_role [] refl refl refl refl
