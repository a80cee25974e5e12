-- ===== src/Controller/Role/Sessions.antt =====
-- internal/controller/databaserole_controller.go: sessions and the finalizer.
use serenedb_operator.Prelude.{
  is_some, ◌≡◌, inl, inr, String, Bool, true, false, none, some, Option, arith, ◌∷◌, List, [], ◌==◌,
  Bool-cases,
}
use serenedb_operator.Errors.{Result, ok, err}
use serenedb_operator.Api.Meta.{NamespacedName, dependent_finalizer, reclaim_delete}
use serenedb_operator.Api.Dependents.{DatabaseRole, PasswordSecretRef}
use serenedb_operator.Statements.{role_exists, role_memberships}
use serenedb_operator.Prelude.Dict.{Dict, insert}
use serenedb_operator.Controller.Database.{valid_or_stop}
use serenedb_operator.Controller.Role.Converge.{
  converge, current_of, grant_one, grant_missing, revoke_one, revoke_unlisted, desired_of, range,
}
use serenedb_operator.Controller.Kube.{Env, History, get_object, a_role}
use serenedb_operator.Controller.Op.{
  Outcome, exec_sql, query_sql, exists, lift, perform, name_or_default,
}
use serenedb_operator.Controller.Session.Laws.{opens, closes, IsBalanced}
use serenedb_operator.Controller.Session.Balance.{
  exec_sql-IsBalanced, exists-IsBalanced, lift-IsBalanced, valid_or_stop-IsBalanced,
  bind-IsBalanced, if-IsBalanced, capture-IsBalanced, with_session-IsBalanced,
  get_object-IsBalanced,
}
use serenedb_operator.Controller.Trace.{count_of, is_sql, is_update, Quiet}
use serenedb_operator.Controller.Finalize.{ensure_finalizer}
use serenedb_operator.Controller.Finalize.Laws.{
  IsBalancedDrop, finalize-IsBalanced, ensure_finalizer-IsBalanced,
}
use serenedb_operator.Controller.Role.{
  apply, apply_on_session, drop_if_present, drop_the_role, password_of, record_outcome,
  apply_and_record, reconcile_object, reconcile, after_get, wanted_drop, finalized_role,
}

module _ (env : Env) where
  drop_the_role-IsBalanced : (name : String) → IsBalanced (drop_the_role env name)
  unfolding drop_the_role drop_if_present opens closes
  drop_the_role-IsBalanced name h = ground arith

  current_of-IsBalanced :
      (current : Dict Bool) (rows : List (List String)) → IsBalanced (current_of current rows)
  unfolding current_of
  current_of-IsBalanced current [] h = omega arith
  current_of-IsBalanced current ([] ∷ rows) h = omega arith
  current_of-IsBalanced current ((group ∷ columns) ∷ rows) h =
      current_of-IsBalanced (insert group true current) rows h

  grant_one-IsBalanced :
      (current : Dict Bool) (name group : String) → IsBalanced (grant_one env current name group)
  unfolding grant_one opens closes
  grant_one-IsBalanced current name group h = ground arith

  grant_missing-IsBalanced :
      (current : Dict Bool) (name : String) (wanted : List String)
      → IsBalanced (grant_missing env current name wanted)
  unfolding grant_missing
  grant_missing-IsBalanced current name [] h = omega arith
  grant_missing-IsBalanced current name (group ∷ wanted) h =
      bind-IsBalanced (grant_one env current name group) _ (grant_one-IsBalanced current name group)
        (λ u. grant_missing-IsBalanced current name wanted) h

  revoke_one-IsBalanced :
      (desired : Dict Bool) (name group : String) → IsBalanced (revoke_one env desired name group)
  unfolding revoke_one opens closes
  revoke_one-IsBalanced desired name group h = ground arith

  revoke_unlisted-IsBalanced :
      (desired : Dict Bool) (name : String) (current : List String)
      → IsBalanced (revoke_unlisted env desired name current)
  unfolding revoke_unlisted
  revoke_unlisted-IsBalanced desired name [] h = omega arith
  revoke_unlisted-IsBalanced desired name (group ∷ current) h =
      bind-IsBalanced (revoke_one env desired name group) _
        (revoke_one-IsBalanced desired name group)
        (λ u. revoke_unlisted-IsBalanced desired name current) h

  query_sql-IsBalanced : (s : String) → IsBalanced (query_sql env s)
  unfolding opens closes
  query_sql-IsBalanced s h = ground arith

  converge-IsBalanced :
      (name : String) (wanted : List String) → IsBalanced (converge env name wanted)
  unfolding converge
  converge-IsBalanced name wanted =
      bind-IsBalanced (lift (role_memberships name)) _ (lift-IsBalanced _) λ q.
        bind-IsBalanced (query_sql env q) _ (query_sql-IsBalanced q) λ rows.
          bind-IsBalanced (current_of [] rows) _ (current_of-IsBalanced [] rows) λ current.
            bind-IsBalanced (grant_missing env current name wanted) _
              (grant_missing-IsBalanced current name wanted)
              λ u.
                bind-IsBalanced {B = Unit {0}} (range env current)
                  (revoke_unlisted env (desired_of [] wanted) name) (λ h. omega arith)
                  (revoke_unlisted-IsBalanced (desired_of [] wanted) name)

  apply_on_session-IsBalanced :
      (r : DatabaseRole) (name : String) (secret : Option String × String)
      → IsBalanced (apply_on_session env r name secret)
  unfolding apply_on_session
  apply_on_session-IsBalanced r name (password, version) =
      bind-IsBalanced (valid_or_stop (role_exists name)) _ (valid_or_stop-IsBalanced _) λ q.
        bind-IsBalanced (exists env q) _ (exists-IsBalanced env q) λ present.
          bind-IsBalanced (valid_or_stop _) _ (valid_or_stop-IsBalanced _) λ statement.
            bind-IsBalanced (exec_sql env statement) _ (exec_sql-IsBalanced env statement) λ u.
              bind-IsBalanced (converge env name r.spec.in_roles) _
                (converge-IsBalanced name r.spec.in_roles) λ v h. omega arith

  password_of-IsBalanced :
      (namespace : String) (ref : Option PasswordSecretRef)
      → IsBalanced (password_of env namespace ref)
  unfolding password_of opens closes
  password_of-IsBalanced namespace none h = omega arith
  password_of-IsBalanced namespace (some ref) h = ground arith

  apply-IsBalanced : (r : DatabaseRole) (name : String) → IsBalanced (apply env r name)
  unfolding apply
  apply-IsBalanced r name =
      bind-IsBalanced (password_of env r.metadata.namespace r.spec.password_secret) _
        (password_of-IsBalanced r.metadata.namespace r.spec.password_secret)
        λ secret.
          with_session-IsBalanced env r.metadata.namespace r.spec.cluster.name _
            (apply_on_session-IsBalanced r name secret)

  record_outcome-IsBalanced :
      (r : DatabaseRole) (o : Outcome DatabaseRole) → IsBalanced (record_outcome env r o)
  unfolding record_outcome opens closes
  record_outcome-IsBalanced r o h = ground arith

  apply_and_record-IsBalanced :
      (r : DatabaseRole) (name : String) (added : Bool)
      → IsBalanced (apply_and_record env r name added)
  unfolding apply_and_record
  apply_and_record-IsBalanced r name true h = omega arith
  apply_and_record-IsBalanced r name false h =
      capture-IsBalanced (apply env r name) (record_outcome env r) (apply-IsBalanced r name)
        (record_outcome-IsBalanced r) h

  drop_the_role-Quiet : (name : String) → Quiet is_update (drop_the_role env name)
  unfolding drop_the_role drop_if_present count_of
  drop_the_role-Quiet name h = ground arith

  -- A reconcile of a DatabaseRole that is not under deletion and has no finalizer runs no SQL.
  pub role_stores_first :
      (r : DatabaseRole) (h : History)
      → r.metadata.deletion_timestamp ≡ none
      → env.lib.contains_finalizer r.metadata.finalizers dependent_finalizer ≡ false
      → count_of is_sql (reconcile_object env r h).1 ≡ count_of is_sql h
  unfolding reconcile_object ensure_finalizer apply_and_record count_of
  role_stores_first r h alive bare = ground arith

  wanted_drop-IsBalancedDrop :
      (r : DatabaseRole) (name : String) → IsBalancedDrop env (wanted_drop env r name)
  wanted_drop-IsBalancedDrop r name = elim (Bool-cases (r.spec.reclaim_policy == reclaim_delete)) [
    | inl e ↦ rw e (drop_the_role-IsBalanced name)
    | inr e ↦ rw e tt
  ]

  reconcile_object-IsBalanced : (r : DatabaseRole) → IsBalanced (reconcile_object env r)
  unfolding reconcile_object
  reconcile_object-IsBalanced r =
      let name = name_or_default r.spec.name r.metadata.name in
      if-IsBalanced (is_some r.metadata.deletion_timestamp) _ _
        (finalize-IsBalanced env (finalized_role r) r.spec.cluster.name (wanted_drop env r name)
          (wanted_drop-IsBalancedDrop r name))
        (bind-IsBalanced (ensure_finalizer env (finalized_role r)) _
          (ensure_finalizer-IsBalanced env (finalized_role r)) (apply_and_record-IsBalanced r name))

  got-IsBalanced : (got : Result DatabaseRole) → IsBalanced (after_get env got)
  got-IsBalanced (ok r) h = reconcile_object-IsBalanced r h
  got-IsBalanced (err e) h = ground arith

  -- A reconcile of a DatabaseRole closes every session that it opens, whatever the outside answers.
  pub role_reconcile-IsBalanced : (request : NamespacedName) → IsBalanced (reconcile env request)
  unfolding reconcile
  role_reconcile-IsBalanced request =
      bind-IsBalanced (perform (get_object a_role request) (λ h. env.get_role h request))
        (after_get env) (get_object-IsBalanced a_role request _) got-IsBalanced
