-- ===== src/Manager/Reconcilers.antt =====
-- internal/controller: what each reconciler holds, the WithClient setters, and the reconcilers that
-- cmd/main.go makes from the manager. The client, the scheme and the connector are values of types that
-- other packages declare.
use serenedb_operator.Prelude.{some, none, Option}

pub record Dependents (Client Connector : Type 0) : Type 0 where
  pub client : Client
  pub connector : Connector

-- `none` is the zero value of the struct.
pub record DatabaseReconciler (Client Connector : Type 0) : Type 0 where
  pub dependents : Option (Dependents Client Connector)

pub record DatabaseRoleReconciler (Client Connector : Type 0) : Type 0 where
  pub dependents : Option (Dependents Client Connector)

pub record ServerSecretReconciler (Client Connector : Type 0) : Type 0 where
  pub dependents : Option (Dependents Client Connector)

pub record BackupReconciler (Client Scheme Connector : Type 0) : Type 0 where
  pub dependents : Option (Dependents Client Connector)
  pub scheme : Option Scheme

pub record SereneDbReconciler (Client Scheme : Type 0) : Type 0 where
  pub client : Client
  pub scheme : Scheme

pub record ScheduledBackupReconciler (Client Clock : Type 0) : Type 0 where
  pub client : Client
  pub now : Option Clock

-- The setters, and the reconcilers that main makes with them from zero values.
module _ {Client Connector : Type 0} where
  -- `dependents{Client: c, Connector: connector}`
  abbrev pub dependents_of : Client → Connector → Dependents Client Connector
  dependents_of c connector = record { client = c; connector = connector }

  abbrev pub database_with_client :
      Client → Connector → DatabaseReconciler Client Connector → DatabaseReconciler Client Connector
  database_with_client c connector r = record r { dependents = some (dependents_of c connector) }

  abbrev pub role_with_client :
      Client
      → Connector
      → DatabaseRoleReconciler Client Connector
      → DatabaseRoleReconciler Client Connector
  role_with_client c connector r = record r { dependents = some (dependents_of c connector) }

  abbrev pub server_secret_with_client :
      Client
      → Connector
      → ServerSecretReconciler Client Connector
      → ServerSecretReconciler Client Connector
  server_secret_with_client c connector r = record r {
    dependents = some (dependents_of c connector);
  }

  abbrev pub database_reconciler : Client → Connector → DatabaseReconciler Client Connector
  database_reconciler c connect = database_with_client c connect (record { dependents = none })

  abbrev pub role_reconciler : Client → Connector → DatabaseRoleReconciler Client Connector
  role_reconciler c connect = role_with_client c connect (record { dependents = none })

  abbrev pub server_secret_reconciler : Client → Connector → ServerSecretReconciler Client Connector
  server_secret_reconciler c connect =
      server_secret_with_client c connect (record { dependents = none })

module _ {Client Scheme Connector : Type 0} where
  abbrev pub backup_with_client :
      Client
      → Scheme
      → Connector
      → BackupReconciler Client Scheme Connector
      → BackupReconciler Client Scheme Connector
  backup_with_client c scheme connector r = record r {
    dependents = some (dependents_of c connector);
    scheme = some scheme;
  }

  abbrev pub backup_reconciler :
      Client → Scheme → Connector → BackupReconciler Client Scheme Connector
  backup_reconciler c scheme connect =
      backup_with_client c scheme connect (record { dependents = none; scheme = none })

abbrev pub serenedb_reconciler :
    {Client Scheme : Type 0} → Client → Scheme → SereneDbReconciler Client Scheme
serenedb_reconciler c scheme = record { client = c; scheme = scheme }

abbrev pub scheduled_backup_reconciler :
    {Client Clock : Type 0} → Client → ScheduledBackupReconciler Client Clock
scheduled_backup_reconciler c = record { client = c; now = none }
