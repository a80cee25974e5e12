-- ===== src/Controller/ServerSecret/Laws.antt =====
-- internal/controller/serversecret_controller.go: sessions and the finalizer.
use serenedb_operator.Prelude.{is_some, ◌≡◌, String, Bool, true, false, none, some, Option, arith}
use serenedb_operator.Errors.{Result, ok, err}
use serenedb_operator.Api.Meta.{NamespacedName, dependent_finalizer}
use serenedb_operator.Api.Dependents.{ServerSecret}
use serenedb_operator.Prelude.Dict.{Dict}
use serenedb_operator.Controller.Database.{valid_or_stop}
use serenedb_operator.Controller.Kube.{Env, History, get_object, a_server_secret}
use serenedb_operator.Controller.Op.{Outcome, exec_sql, perform, name_or_default}
use serenedb_operator.Controller.Session.{with_session}
use serenedb_operator.Controller.Session.Laws.{opens, closes, IsBalanced}
use serenedb_operator.Controller.Session.Balance.{
  exec_sql-IsBalanced, valid_or_stop-IsBalanced, bind-IsBalanced, if-IsBalanced, capture-IsBalanced,
  with_session-IsBalanced, get_object-IsBalanced,
}
use serenedb_operator.Controller.Trace.{count_of, is_sql, is_update, Quiet}
use serenedb_operator.Controller.Finalize.{ensure_finalizer}
use serenedb_operator.Controller.Finalize.Laws.{finalize-IsBalanced, ensure_finalizer-IsBalanced}
use serenedb_operator.Controller.ServerSecret.{
  apply, options_of, drop_if_present, drop_server_secret, record_outcome, apply_and_record,
  reconcile_object, reconcile, after_get, finalized_server_secret,
}

module _ (env : Env) where
  drop_server_secret-IsBalanced : (name : String) → IsBalanced (drop_server_secret env name)
  unfolding drop_server_secret drop_if_present opens closes
  drop_server_secret-IsBalanced name h = ground arith

  options_of-IsBalanced :
      (namespace : String) (inline : Dict String) (from : Option String)
      → IsBalanced (options_of env namespace inline from)
  unfolding options_of opens closes
  options_of-IsBalanced namespace inline none h = omega arith
  options_of-IsBalanced namespace inline (some name) h = ground arith

  apply-IsBalanced : (s : ServerSecret) (name : String) → IsBalanced (apply env s name)
  unfolding apply
  apply-IsBalanced s name =
      bind-IsBalanced (options_of env s.metadata.namespace s.spec.options s.spec.values_from) _
        (options_of-IsBalanced s.metadata.namespace s.spec.options s.spec.values_from)
        λ (options, version).
          bind-IsBalanced (valid_or_stop _) _ (valid_or_stop-IsBalanced _) λ statement.
            bind-IsBalanced
              (with_session env s.metadata.namespace s.spec.cluster.name (exec_sql env statement)) _
              (with_session-IsBalanced env s.metadata.namespace s.spec.cluster.name _
                (exec_sql-IsBalanced env statement))
              λ u h. omega arith

  record_outcome-IsBalanced :
      (s : ServerSecret) (r : Outcome ServerSecret) → IsBalanced (record_outcome env s r)
  unfolding record_outcome opens closes
  record_outcome-IsBalanced s r h = ground arith

  apply_and_record-IsBalanced :
      (s : ServerSecret) (name : String) (added : Bool)
      → IsBalanced (apply_and_record env s name added)
  unfolding apply_and_record
  apply_and_record-IsBalanced s name true h = omega arith
  apply_and_record-IsBalanced s name false h =
      capture-IsBalanced (apply env s name) (record_outcome env s) (apply-IsBalanced s name)
        (record_outcome-IsBalanced s) h

  drop_server_secret-Quiet : (name : String) → Quiet is_update (drop_server_secret env name)
  unfolding drop_server_secret drop_if_present count_of
  drop_server_secret-Quiet name h = ground arith

  -- A reconcile of a ServerSecret that is not under deletion and has no finalizer runs no SQL.
  pub server_secret_stores_first :
      (s : ServerSecret) (h : History)
      → s.metadata.deletion_timestamp ≡ none
      → env.lib.contains_finalizer s.metadata.finalizers dependent_finalizer ≡ false
      → count_of is_sql (reconcile_object env s h).1 ≡ count_of is_sql h
  unfolding reconcile_object ensure_finalizer apply_and_record count_of
  server_secret_stores_first s h alive bare = ground arith

  reconcile_object-IsBalanced : (s : ServerSecret) → IsBalanced (reconcile_object env s)
  unfolding reconcile_object
  reconcile_object-IsBalanced s =
      let name = name_or_default s.spec.name s.metadata.name in
      if-IsBalanced (is_some s.metadata.deletion_timestamp) _ _
        (finalize-IsBalanced env (finalized_server_secret s) s.spec.cluster.name
          (some (drop_server_secret env name)) (drop_server_secret-IsBalanced name))
        (bind-IsBalanced (ensure_finalizer env (finalized_server_secret s)) _
          (ensure_finalizer-IsBalanced env (finalized_server_secret s))
          (apply_and_record-IsBalanced s name))

  got-IsBalanced : (r : Result ServerSecret) → IsBalanced (after_get env r)
  got-IsBalanced (ok s) h = reconcile_object-IsBalanced s h
  got-IsBalanced (err e) h = ground arith

  -- A reconcile of a ServerSecret closes every session that it opens, whatever the outside answers.
  pub server_secret_reconcile-IsBalanced :
      (request : NamespacedName) → IsBalanced (reconcile env request)
  unfolding reconcile
  server_secret_reconcile-IsBalanced request =
      bind-IsBalanced
        (perform (get_object a_server_secret request) (λ h. env.get_server_secret h request))
        (after_get env) (get_object-IsBalanced a_server_secret request _) got-IsBalanced
