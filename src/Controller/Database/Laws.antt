-- ===== src/Controller/Database/Laws.antt =====
-- internal/controller/database_controller.go: sessions, the finalizer and the statements.
use serenedb_operator.Prelude.{
  ◌≡◌, inl, inr, String, Bool, true, false, none, some, Option, List, [], ◌∷◌, arith, ◌==◌,
  Bool-cases,
}
use serenedb_operator.Errors.{Result, ok, err, Result-cases}
use serenedb_operator.Api.Meta.{NamespacedName, dependent_finalizer, reclaim_delete}
use serenedb_operator.Api.Dependents.{Database}
use serenedb_operator.Controller.Kube.{Env, History, get_object, a_database, exec, query, close}
use serenedb_operator.Controller.Op.{
  Outcome, done, perform, closing, exists, ◌>>=◌, name_or_default,
}
use serenedb_operator.Statements.{database_exists, create_database}
use serenedb_operator.Controller.Session.{open_session}
use serenedb_operator.Controller.Session.Laws.{opens, closes, IsBalanced}
use serenedb_operator.Controller.Session.Balance.{
  bind-IsBalanced, if-IsBalanced, capture-IsBalanced, with_session-IsBalanced,
  get_object-IsBalanced,
}
use serenedb_operator.Controller.Trace.{count_of, is_sql, is_update, Quiet, bind_done}
use serenedb_operator.Controller.Finalize.{ensure_finalizer}
use serenedb_operator.Prelude.{is_some}
use serenedb_operator.Controller.Finalize.Laws.{
  IsBalancedDrop, finalize-IsBalanced, ensure_finalizer-IsBalanced,
}
use serenedb_operator.Controller.Database.{
  valid_or_stop, apply, create_if_missing, drop_if_present, drop_the_database, record_outcome,
  apply_and_record, reconcile_object, reconcile, after_get, wanted_drop, finalized_database,
}

module _ (env : Env) where
  pub drop_the_database-IsBalanced : (name : String) → IsBalanced (drop_the_database env name)
  unfolding drop_the_database drop_if_present opens closes
  drop_the_database-IsBalanced name h = ground arith

  apply-IsBalanced : (db : Database) (name : String) → IsBalanced (apply env db name)
  unfolding apply create_if_missing opens closes
  apply-IsBalanced db name =
      with_session-IsBalanced env db.metadata.namespace db.spec.cluster.name _ λ h. ground arith

  record_outcome-IsBalanced :
      (db : Database) (r : Outcome (Unit {0})) → IsBalanced (record_outcome env db r)
  unfolding record_outcome opens closes
  record_outcome-IsBalanced db r h = ground arith

  apply_and_record-IsBalanced :
      (db : Database) (name : String) (added : Bool)
      → IsBalanced (apply_and_record env db name added)
  unfolding apply_and_record
  apply_and_record-IsBalanced db name true h = omega arith
  apply_and_record-IsBalanced db name false h =
      capture-IsBalanced (apply env db name) (record_outcome env db) (apply-IsBalanced db name)
        (record_outcome-IsBalanced db) h

  pub drop_the_database-Quiet : (name : String) → Quiet is_update (drop_the_database env name)
  unfolding drop_the_database drop_if_present count_of
  drop_the_database-Quiet name h = ground arith

  -- A reconcile of a Database that is not under deletion and has no finalizer runs no SQL.
  pub database_stores_first :
      (db : Database) (h : History)
      → db.metadata.deletion_timestamp ≡ none
      → env.lib.contains_finalizer db.metadata.finalizers dependent_finalizer ≡ false
      → count_of is_sql (reconcile_object env db h).1 ≡ count_of is_sql h
  unfolding reconcile_object ensure_finalizer apply_and_record count_of
  database_stores_first db h alive bare = ground arith

  wanted_drop-IsBalancedDrop :
      (db : Database) (name : String) → IsBalancedDrop env (wanted_drop env db name)
  wanted_drop-IsBalancedDrop db name =
      elim (Bool-cases (db.spec.reclaim_policy == reclaim_delete)) [
        | inl e ↦ rw e (drop_the_database-IsBalanced name)
        | inr e ↦ rw e tt
      ]

  reconcile_object-IsBalanced : (db : Database) → IsBalanced (reconcile_object env db)
  unfolding reconcile_object
  reconcile_object-IsBalanced db =
      let name = name_or_default db.spec.name db.metadata.name in
      if-IsBalanced (is_some db.metadata.deletion_timestamp) _ _
        (finalize-IsBalanced env (finalized_database db) db.spec.cluster.name
          (wanted_drop env db name) (wanted_drop-IsBalancedDrop db name))
        (bind-IsBalanced (ensure_finalizer env (finalized_database db)) _
          (ensure_finalizer-IsBalanced env (finalized_database db))
          (apply_and_record-IsBalanced db name))

  got-IsBalanced : (r : Result Database) → IsBalanced (after_get env r)
  got-IsBalanced (ok db) h = reconcile_object-IsBalanced db h
  got-IsBalanced (err e) h = ground arith

  -- A reconcile of a Database closes every session that it opens, whatever the outside answers.
  pub database_reconcile-IsBalanced :
      (request : NamespacedName) → IsBalanced (reconcile env request)
  unfolding reconcile
  database_reconcile-IsBalanced request =
      bind-IsBalanced (perform (get_object a_database request) (λ h. env.get_database h request))
        (after_get env) (get_object-IsBalanced a_database request _) got-IsBalanced

  -- What an application runs on its session: the database is created where no row says that it is there.
  abbrev pub ran : String → Option (List String) → History → History
  ran name (some row) h = h
  ran name none h = record { call = exec (create_database env.lib.sanitize name); error = none } ∷ h

  abbrev pub first_row : List (List String) → Option (List String)
  first_row [] = none
  first_row (row ∷ rows) = some row

  session_runs :
      (name q : String) (rows : List (List String)) (h h' : History)
      → database_exists name ≡ ok q
      → env.rows h q ≡ ok rows
      → closing
          (valid_or_stop (database_exists name) >>= λ query.
            exists env query >>= λ present. create_if_missing env name present)
          h
        ≡ (done tt, h')
      → h'
        ≡ record { call = close; error = none }
          ∷ ran name (first_row rows) (record { call = query q; error = none } ∷ h)
  unfolding create_if_missing
  session_runs name q [] h h' p r e = ground arith
  session_runs name q (row ∷ rows) h h' p r e = ground arith

  -- An application that ends well has opened a session on the cluster of the Database, asked the server
  -- for the database, created it exactly where the server had none, and closed the session.
  pub database_apply_runs :
      (db : Database) (name : String) (h h' : History)
      → apply env db name h ≡ (done tt, h')
      → (q : String) × (rows : List (List String)) × (h1 : History) × (database_exists name ≡ ok q)
        × (open_session env db.metadata.namespace db.spec.cluster.name h ≡ (done tt, h1))
        × (env.rows h1 q ≡ ok rows)
        × (h'
            ≡ record { call = close; error = none }
              ∷ ran name (first_row rows) (record { call = query q; error = none } ∷ h1))
  unfolding apply create_if_missing
  database_apply_runs db name h h' e =
      let (u, h1, opened, f) =
        bind_done (open_session env db.metadata.namespace db.spec.cluster.name) _ tt h h' e in
      elim (Result-cases (database_exists name)) [
        | inr (x, p) ↦ absurd (ground arith)
        | inl (q, p) ↦ elim (Result-cases (env.rows h1 q)) [
          | inr (x, r) ↦ absurd (ground arith)
          | inl (rows, r) ↦ (q, rows, h1, p, opened, r, session_runs name q rows h1 h' p r f)
        ]
      ]
