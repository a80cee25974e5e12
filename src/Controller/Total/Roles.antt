-- ===== src/Controller/Total/Roles.antt =====
-- The controller of DatabaseRole panics only on a row without columns.
use serenedb_operator.Prelude.Dict.{Dict}
use serenedb_operator.Errors.{ok}
use serenedb_operator.Controller.Kube.{History, Env}
use serenedb_operator.Controller.Server
use serenedb_operator.Controller.Database
use serenedb_operator.Controller.ServerSecret
use serenedb_operator.Controller.Backup
use serenedb_operator.Controller.Schedule
use serenedb_operator.Controller.Role
use serenedb_operator.Prelude.{◌≡◌, String, Bool, true, false, List, [], ◌∷◌, All}

-- A row of an answer has a column.
abbrev pub has_column : List String → Bool
has_column [] = false
has_column (value ∷ columns) = true

-- Every answer of the SQL server has rows of one column at least, as a query of one column has.
abbrev pub HasColumns : Env → Type 0
HasColumns env =
    (h : History) (q : String) (rows : List (List String))
    → env.rows h q ≡ ok rows
    → All (λ row. has_column row ≡ true) rows
