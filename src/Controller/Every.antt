-- ===== src/Controller/Every.antt =====
-- What the reconcilers of internal/controller have in common: sessions, the finalizer that is stored
-- before any SQL, and the objects that leave their server's data alone.
use serenedb_operator.Controller.Backup.Sessions.{backup_reconcile-IsBalanced}
use serenedb_operator.Controller.ServerSecret.Laws.{
  server_secret_stores_first, server_secret_reconcile-IsBalanced,
}
use serenedb_operator.Controller.Role.Sessions.{role_stores_first, role_reconcile-IsBalanced}
use serenedb_operator.Controller.Database.Laws.{
  database_stores_first, database_reconcile-IsBalanced,
}
use serenedb_operator.Api.Meta.{reclaim_delete, dependent_finalizer, NamespacedName}
use serenedb_operator.Api.Dependents.{ServerSecret, DatabaseRole, Database}
use serenedb_operator.Prelude.{String, ◌≡◌, true, false, none, arith, ◌==◌}
use serenedb_operator.Controller.Kube.{Env, History}
use serenedb_operator.Controller.Session.Laws.{IsBalanced}
use serenedb_operator.Controller.Trace.{count_of, is_sql, is_connect}
use serenedb_operator.Controller.Database
use serenedb_operator.Controller.Role
use serenedb_operator.Controller.ServerSecret
use serenedb_operator.Controller.Backup
use serenedb_operator.Controller.Finalize.{Finalized, finalize, cluster_gone, remove_finalizer}
use serenedb_operator.Prelude.{is_some}

module _ (env : Env) where
  -- A reconcile of a Database, a DatabaseRole, a ServerSecret or a Backup closes every session that it
  -- opens, whatever the outside answers.
  pub reconcile-IsBalanced :
      (request : NamespacedName)
      → IsBalanced (Database.reconcile env request)
        × IsBalanced (Role.reconcile env request)
        × IsBalanced (ServerSecret.reconcile env request)
        × IsBalanced (Backup.reconcile env request)
  reconcile-IsBalanced request = (
    database_reconcile-IsBalanced env request,
    role_reconcile-IsBalanced env request,
    server_secret_reconcile-IsBalanced env request,
    backup_reconcile-IsBalanced env request,
  )

  -- A reconcile of a Database, a DatabaseRole or a ServerSecret that is not under deletion and has no
  -- finalizer runs no SQL.
  pub reconcile_object_stores_first :
      (d : Database) (r : DatabaseRole) (s : ServerSecret) (h : History)
      → d.metadata.deletion_timestamp ≡ none
      → r.metadata.deletion_timestamp ≡ none
      → s.metadata.deletion_timestamp ≡ none
      → env.lib.contains_finalizer d.metadata.finalizers dependent_finalizer ≡ false
      → env.lib.contains_finalizer r.metadata.finalizers dependent_finalizer ≡ false
      → env.lib.contains_finalizer s.metadata.finalizers dependent_finalizer ≡ false
      → (count_of is_sql (Database.reconcile_object env d h).1 ≡ count_of is_sql h)
        × (count_of is_sql (Role.reconcile_object env r h).1 ≡ count_of is_sql h)
        × (count_of is_sql (ServerSecret.reconcile_object env s h).1 ≡ count_of is_sql h)
  reconcile_object_stores_first d r s h da ra sa db rb sb = (
    database_stores_first env d h da db,
    role_stores_first env r h ra rb,
    server_secret_stores_first env s h sa sb,
  )

  -- Without a wanted drop no call of a kind is made that is neither a read of the cluster nor the update.
  finalize_without_drop :
      (obj : Finalized) (cluster : String) (h : History)
      → (count_of is_sql (finalize env obj cluster none h).1 ≡ count_of is_sql h)
        × (count_of is_connect (finalize env obj cluster none h).1 ≡ count_of is_connect h)
  unfolding finalize cluster_gone remove_finalizer count_of
  finalize_without_drop obj cluster h = ground arith

  -- A reconcile of a Database or a DatabaseRole under deletion whose reclaim policy is not Delete opens no
  -- connection and runs no SQL, so that what the server holds stays.
  pub reconcile_object_retains :
      (d : Database) (r : DatabaseRole) (h : History)
      → is_some d.metadata.deletion_timestamp ≡ true
      → is_some r.metadata.deletion_timestamp ≡ true
      → (d.spec.reclaim_policy == reclaim_delete) ≡ false
      → (r.spec.reclaim_policy == reclaim_delete) ≡ false
      → (count_of is_sql (Database.reconcile_object env d h).1 ≡ count_of is_sql h)
        × (count_of is_connect (Database.reconcile_object env d h).1 ≡ count_of is_connect h)
        × (count_of is_sql (Role.reconcile_object env r h).1 ≡ count_of is_sql h)
        × (count_of is_connect (Role.reconcile_object env r h).1 ≡ count_of is_connect h)
  unfolding Database.reconcile_object Role.reconcile_object
  reconcile_object_retains d r h dd rd dp rp =
      let (a, b) = finalize_without_drop (Database.finalized_database d) d.spec.cluster.name h in
      let (a', b') = finalize_without_drop (Role.finalized_role r) r.spec.cluster.name h in
      rw (dd, rd, dp, rp) (a, b, a', b')
