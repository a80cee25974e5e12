-- ===== src/Controller/Role/Converge.antt =====
-- `converge` of internal/controller/databaserole_controller.go: the memberships of a role.
use serenedb_operator.Prelude.{String, Bool, true, false, List, [], ◌∷◌, map, if◌then◌else◌, get_or}
use serenedb_operator.Prelude.Dict.{Dict, lookup, insert}
use serenedb_operator.Statements.{role_memberships, grant_membership, revoke_membership}
use serenedb_operator.Controller.Kube.{Env}
use serenedb_operator.Controller.Op.{Op, pure, panic, lift, exec_sql, query_sql, ◌>>=◌, ◌>>◌}

-- A `map[string]bool` that is only ever set to true; a missing key reads as false.
abbrev pub is_set : String → Dict Bool → Bool
is_set k m = get_or false (lookup k m)

-- The loop over the rows; `row[0]` of an empty row panics.
unfoldable pub current_of : Dict Bool → List (List String) → Op (Dict Bool)
current_of current [] = pure current
current_of current ([] ∷ rows) = panic
current_of current ((group ∷ columns) ∷ rows) = current_of (insert group true current) rows

-- The map `desired` behind the first loop.
unfoldable pub desired_of : Dict Bool → List String → Dict Bool
desired_of desired [] = desired
desired_of desired (group ∷ wanted) = desired_of (insert group true desired) wanted

module _ (env : Env) where
  unfoldable pub grant_one : Dict Bool → String → String → Op (Unit {0})
  grant_one current name group =
      if is_set group current
      then pure tt
      else exec_sql env (grant_membership env.lib.sanitize group name)

  unfoldable pub grant_missing : Dict Bool → String → List String → Op (Unit {0})
  grant_missing current name [] = pure tt
  grant_missing current name (group ∷ wanted) = do
    grant_one current name group
    grant_missing current name wanted

  unfoldable pub revoke_one : Dict Bool → String → String → Op (Unit {0})
  revoke_one desired name group =
      if is_set group desired
      then pure tt
      else exec_sql env (revoke_membership env.lib.sanitize group name)

  unfoldable pub revoke_unlisted : Dict Bool → String → List String → Op (Unit {0})
  revoke_unlisted desired name [] = pure tt
  revoke_unlisted desired name (group ∷ current) = do
    revoke_one desired name group
    revoke_unlisted desired name current

  -- The keys of a map in the order of its iteration.
  abbrev pub range : Dict Bool → Op (List String)
  range m h = pure (env.iterate h (map (λ e. e.0) m)) h

  -- Grants the memberships that are missing and revokes the ones no longer listed.
  unfoldable pub converge : String → List String → Op (Unit {0})
  converge name wanted = do
    query ← lift (role_memberships name)
    rows ← query_sql env query
    current ← current_of [] rows
    grant_missing current name wanted
    groups ← range current
    revoke_unlisted (desired_of [] wanted) name groups
