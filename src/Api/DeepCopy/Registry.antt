-- ===== src/Api/DeepCopy/Registry.antt =====
-- The types of api/v1alpha1 that the scheme holds when every file's init has run, and what the
-- rest of the program may write after a deep copy.
pub mod Writes
pub mod Laws
use serenedb_operator.Api.DeepCopy.Secrets.{registered_secrets}
use serenedb_operator.Api.DeepCopy.Server.{registered_server}
use serenedb_operator.Api.DeepCopy.Schedules.{registered_schedules}
use serenedb_operator.Api.DeepCopy.Roles.{registered_roles}
use serenedb_operator.Api.DeepCopy.Databases.{registered_databases}
use serenedb_operator.Api.DeepCopy.Backups.{registered_backups}
use serenedb_operator.Api.DeepCopy.Copiers.{ApiType, Imports}
use mathlib.Core.List.{List, ◌++◌}

-- The files' init functions, in the order of the files' names.
unfoldable pub registered : Imports → List ApiType
registered i =
    registered_backups i
    ++ registered_databases i
    ++ registered_roles i
    ++ registered_schedules i
    ++ registered_server i
    ++ registered_secrets i
