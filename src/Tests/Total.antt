-- ===== src/Tests/Total.antt =====
-- Examples: no reconcile panics in the example environment.
use serenedb_operator.Errors.{ok, err, Result}
use serenedb_operator.Api.Meta.{NamespacedName}
use serenedb_operator.Prelude.{List, [], String}
use serenedb_operator.Controller.Server
use serenedb_operator.Controller.Database
use serenedb_operator.Controller.Role
use serenedb_operator.Controller.ServerSecret
use serenedb_operator.Controller.Backup
use serenedb_operator.Controller.Schedule

abbrev rows_of : Result (List (List String)) → List (List String)
rows_of (ok rows) = rows
rows_of (err e) = []

abbrev request : NamespacedName
request = record { namespace = "prod"; name = "app" }
