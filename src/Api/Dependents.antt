-- ===== src/Api/Dependents.antt =====
-- The objects that the operator applies by SQL: api/v1alpha1/database_types.go,
-- databaserole_types.go and serversecret_types.go.
use serenedb_operator.Prelude.{String, Bool, Option, List}
use serenedb_operator.Prelude.Dict.{Dict}
use serenedb_operator.Prelude.Int.{ℤ}
use serenedb_operator.Api.Meta.{ObjectMeta, ClusterRef, DependentStatus}

pub record DatabaseSpec : Type 0 where
  pub cluster : ClusterRef
  pub name : String
  pub reclaim_policy : String

pub record Database : Type 0 where
  pub metadata : ObjectMeta
  pub spec : DatabaseSpec
  pub status : DependentStatus

pub record PasswordSecretRef : Type 0 where
  pub name : String
  pub key : String

pub record DatabaseRoleSpec : Type 0 where
  pub cluster : ClusterRef
  pub name : String
  pub login : Bool
  pub superuser : Bool
  pub create_db : Bool
  pub create_role : Bool
  pub inherit : Option Bool
  pub connection_limit : Option ℤ
  pub valid_until : String
  pub password_secret : Option PasswordSecretRef
  pub in_roles : List String
  pub reclaim_policy : String

pub record DatabaseRole : Type 0 where
  pub metadata : ObjectMeta
  pub spec : DatabaseRoleSpec
  pub status : DependentStatus
  pub password_secret_version : String  -- the rest of DatabaseRoleStatus

pub record ServerSecretSpec : Type 0 where
  pub cluster : ClusterRef
  pub name : String
  pub secret_type : String
  pub scope : String
  pub options : Dict String
  pub values_from : Option String  -- the name of the Secret

pub record ServerSecret : Type 0 where
  pub metadata : ObjectMeta
  pub spec : ServerSecretSpec
  pub status : DependentStatus
  pub values_secret_version : String  -- the rest of ServerSecretStatus
