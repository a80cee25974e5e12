-- ===== src/Controller/Total/Dependents.antt =====
-- The controllers of Database and ServerSecret do not panic.
use serenedb_operator.Controller.Session.{with_session}
use serenedb_operator.Prelude.Dict.{Dict}
use serenedb_operator.Controller.Finalize.{ensure_finalizer}
use serenedb_operator.Prelude.{is_some}
use serenedb_operator.Controller.Total.{
  ensure_finalizer-IsTotal, finalize-IsTotal, with_session-IsTotal, IsTotalDrop,
}
use serenedb_operator.Controller.Op.{
  exec_sql, name_or_default, stopped, panicked, failed, done, perform, Outcome,
}
use serenedb_operator.Errors.{ok, err, Result}
use serenedb_operator.Controller.Trace.{
  IsTotal-if, is_panic, IsTotal-capture, IsTotal-bind, IsTotal,
}
use serenedb_operator.Api.Meta.{reclaim_delete, NamespacedName}
use serenedb_operator.Api.Dependents.{ServerSecret, Database}
use serenedb_operator.Controller.Kube.{a_server_secret, a_database, get_object, Env}
use serenedb_operator.Controller.Database
use serenedb_operator.Controller.ServerSecret
use serenedb_operator.Prelude.{
  inr, inl, ◌==◌, Bool-cases, ◌≡◌, refl, String, Bool, true, false, none, some, Option, arith,
}

module _ (env : Env) where
  drop_the_database-IsTotal : (name : String) → IsTotal (Database.drop_the_database env name)
  unfolding Database.drop_the_database Database.drop_if_present
  drop_the_database-IsTotal name h = ground arith

  database_drop-IsTotalDrop :
      (db : Database) (name : String) → IsTotalDrop (Database.wanted_drop env db name)
  database_drop-IsTotalDrop db name = elim (Bool-cases (db.spec.reclaim_policy == reclaim_delete)) [
    | inl e ↦ rw e (drop_the_database-IsTotal name)
    | inr e ↦ rw e tt
  ]

  apply_database-IsTotal : (db : Database) (name : String) → IsTotal (Database.apply env db name)
  unfolding Database.apply Database.create_if_missing
  apply_database-IsTotal db name =
      with_session-IsTotal env db.metadata.namespace db.spec.cluster.name _ λ h. ground arith

  record_database-IsTotal :
      (db : Database) (r : Outcome (Unit {0}))
      → is_panic r ≡ false
      → IsTotal (Database.record_outcome env db r)
  unfolding Database.record_outcome
  record_database-IsTotal db (done u) n h = ground arith
  record_database-IsTotal db (stopped x) n h = ground arith
  record_database-IsTotal db (failed x) n h = ground arith
  record_database-IsTotal db panicked n h = n

  record_or_skip_database :
      (db : Database) (name : String) (added : Bool)
      → IsTotal (Database.apply_and_record env db name added)
  unfolding Database.apply_and_record
  record_or_skip_database db name true h = refl
  record_or_skip_database db name false h =
      IsTotal-capture (Database.apply env db name) (Database.record_outcome env db)
        (apply_database-IsTotal db name) (record_database-IsTotal db) h

  got_database-IsTotal : (r : Result Database) → IsTotal (Database.after_get env r)
  unfolding Database.reconcile_object
  got_database-IsTotal (err e) h = ground arith
  got_database-IsTotal (ok db) h =
      let name = name_or_default db.spec.name db.metadata.name in
      IsTotal-if (is_some db.metadata.deletion_timestamp) _ _
        (finalize-IsTotal env (Database.finalized_database db) db.spec.cluster.name
          (Database.wanted_drop env db name) (database_drop-IsTotalDrop db name))
        (IsTotal-bind (ensure_finalizer env (Database.finalized_database db)) _
          (ensure_finalizer-IsTotal env (Database.finalized_database db))
          (record_or_skip_database db name))
        h

  -- A reconcile of a Database never panics.
  pub reconcile_database-IsTotal :
      (request : NamespacedName) → IsTotal (Database.reconcile env request)
  unfolding Database.reconcile
  reconcile_database-IsTotal request =
      IsTotal-bind (perform (get_object a_database request) (λ h. env.get_database h request))
        (Database.after_get env) (λ h. refl) got_database-IsTotal

  drop_server_secret-IsTotal : (name : String) → IsTotal (ServerSecret.drop_server_secret env name)
  unfolding ServerSecret.drop_server_secret ServerSecret.drop_if_present
  drop_server_secret-IsTotal name h = ground arith

  options_of-IsTotal :
      (ns : String) (inline : Dict String) (from : Option String)
      → IsTotal (ServerSecret.options_of env ns inline from)
  unfolding ServerSecret.options_of
  options_of-IsTotal ns inline none h = refl
  options_of-IsTotal ns inline (some name) h = ground arith

  pub valid_or_stop-IsTotal : (r : Result String) → IsTotal (Database.valid_or_stop r)
  valid_or_stop-IsTotal (ok q) h = refl
  valid_or_stop-IsTotal (err e) h = refl

  exec_sql-IsTotal : (statement : String) → IsTotal (exec_sql env statement)
  exec_sql-IsTotal statement h = ground arith

  apply_secret-IsTotal :
      (s : ServerSecret) (name : String) → IsTotal (ServerSecret.apply env s name)
  unfolding ServerSecret.apply
  apply_secret-IsTotal s name =
      let ns = s.metadata.namespace in
      IsTotal-bind (ServerSecret.options_of env ns s.spec.options s.spec.values_from) _
        (options_of-IsTotal ns s.spec.options s.spec.values_from)
        λ (options, version).
          IsTotal-bind (Database.valid_or_stop _) _ (valid_or_stop-IsTotal _) λ statement.
            IsTotal-bind (with_session env ns s.spec.cluster.name (exec_sql env statement)) _
              (with_session-IsTotal env ns s.spec.cluster.name _ (exec_sql-IsTotal statement))
              λ u h. refl

  record_secret-IsTotal :
      (s : ServerSecret) (r : Outcome ServerSecret)
      → is_panic r ≡ false
      → IsTotal (ServerSecret.record_outcome env s r)
  unfolding ServerSecret.record_outcome
  record_secret-IsTotal s (done u) n h = ground arith
  record_secret-IsTotal s (stopped x) n h = ground arith
  record_secret-IsTotal s (failed x) n h = ground arith
  record_secret-IsTotal s panicked n h = n

  record_or_skip_secret :
      (s : ServerSecret) (name : String) (added : Bool)
      → IsTotal (ServerSecret.apply_and_record env s name added)
  unfolding ServerSecret.apply_and_record
  record_or_skip_secret s name true h = refl
  record_or_skip_secret s name false h =
      IsTotal-capture (ServerSecret.apply env s name) (ServerSecret.record_outcome env s)
        (apply_secret-IsTotal s name) (record_secret-IsTotal s) h

  got_secret-IsTotal : (r : Result ServerSecret) → IsTotal (ServerSecret.after_get env r)
  unfolding ServerSecret.reconcile_object
  got_secret-IsTotal (err e) h = ground arith
  got_secret-IsTotal (ok s) h =
      let name = name_or_default s.spec.name s.metadata.name in
      IsTotal-if (is_some s.metadata.deletion_timestamp) _ _
        (finalize-IsTotal env (ServerSecret.finalized_server_secret s) s.spec.cluster.name
          (some (ServerSecret.drop_server_secret env name)) (drop_server_secret-IsTotal name))
        (IsTotal-bind (ensure_finalizer env (ServerSecret.finalized_server_secret s)) _
          (ensure_finalizer-IsTotal env (ServerSecret.finalized_server_secret s))
          (record_or_skip_secret s name))
        h

  -- A reconcile of a ServerSecret never panics.
  pub reconcile_secret-IsTotal :
      (request : NamespacedName) → IsTotal (ServerSecret.reconcile env request)
  unfolding ServerSecret.reconcile
  reconcile_secret-IsTotal request =
      IsTotal-bind
        (perform (get_object a_server_secret request) (λ h. env.get_server_secret h request))
        (ServerSecret.after_get env) (λ h. refl) got_secret-IsTotal
