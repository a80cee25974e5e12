-- ===== src/Tests/Roles.antt =====
-- Examples of the roles, the server secrets and the report of an application.
use serenedb_operator.Prelude.{◌≡◌, refl, String, true, false, none, ◌∷◌, List, []}
use serenedb_operator.Prelude.Dict.{lookup, insert}
use mathlib.Core.List.Perm
use serenedb_operator.Errors.{ok}
use serenedb_operator.SqlExec.{literal}
use serenedb_operator.Statements.{RoleAttributes, role_memberships}
use serenedb_operator.Controller.Kube.{History, query}
use serenedb_operator.Controller.Op.{Outcome, stopped}
use serenedb_operator.Controller.Session.{blocked}
use serenedb_operator.Controller.Role.Converge.{
  converge, current_of, desired_of, grant_one, grant_missing, revoke_one, revoke_unlisted,
}
use serenedb_operator.Controller.Role.Memberships.{converge_reaches, Reached}
use serenedb_operator.Tests.World.{env}

abbrev attributes : RoleAttributes
attributes = record {
  login = true;
  superuser = false;
  create_db = false;
  create_role = false;
  inherit = true;
  connection_limit = none;
  valid_until = "";
  password = none;
}

abbrev ended : Outcome (Unit {0}) × History
ended = converge env "writer" ("staff" ∷ "team" ∷ []) []

-- The role is in `guest` and `staff` and becomes a member of `staff` and `team`.
converge_reaches_example :
    (q : String) × (rows : List (List String)) × (role_memberships "writer" ≡ ok q)
    × (env.rows [] q ≡ ok rows)
    × Reached env "writer"
        ("staff" ∷ "team" ∷ [])
        rows
        (record { call = query q; error = none } ∷ [])
        ended.1
unfolding converge role_memberships literal current_of desired_of grant_one grant_missing revoke_one
    revoke_unlisted lookup insert
converge_reaches_example =
    converge_reaches env "writer" ("staff" ∷ "team" ∷ []) (λ h keys. Perm.refl keys) [] ended.1 refl

abbrev failed_outcome : Outcome (Unit {0})
failed_outcome = stopped (blocked "ClusterNotReady" "not ready")
