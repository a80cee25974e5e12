-- ===== src/Controller/Finalize.antt =====
-- internal/controller/dependent.go: the finalizer of the objects that are applied by SQL.
pub mod Laws
pub mod Safety
use serenedb_operator.Prelude.{
  is_some, String, Bool, true, false, Option, none, some, not, if◌then◌else◌, ◌≡◌,
}
use serenedb_operator.Errors.{Err, Result, ok, err, wrapped, is_not_found}
use serenedb_operator.Api.Meta.{NamespacedName, ObjectMeta, dependent_finalizer}
use serenedb_operator.Api.SereneDb.{SereneDb}
use serenedb_operator.Controller.Kube.{
  Env, Library, Object, get_object, a_serenedb, update, database, role, server_secret,
}
use serenedb_operator.Controller.Op.{
  Op, Outcome, done, stopped, failed, panicked, pure, fail, panic, stop, perform, ask, capture,
  closing, wrapping, CtrlResult, no_requeue, requeue_seconds, ignore_not_found, ◌>>=◌, ◌>>◌,
}
use serenedb_operator.Controller.Session.{open_session}

-- `missingDependencyRequeue`
abbrev pub missing_dependency_requeue : CtrlResult
missing_dependency_requeue = requeue_seconds 30

-- What `finalize` is called with: the object's metadata, and the object with other finalizers.
pub record Finalized : Type 0 where
  pub metadata : ObjectMeta
  pub rebuild : ObjectMeta → Object

-- `err != nil && client.IgnoreNotFound(fmt.Errorf("remove finalizer: %w", err))`
abbrev pub removed : Result (Unit {0}) → Op CtrlResult
removed (ok u) = pure no_requeue
removed (err e) = ignore_not_found (wrapped "remove finalizer" e)

abbrev pub added : Result (Unit {0}) → Op Bool
added (ok u) = pure true
added (err e) = fail (wrapped "add finalizer" e)

-- The SereneDB is absent, or it is being deleted.
abbrev pub gone_of : Result SereneDb → Op Bool
gone_of (ok db) = pure (is_some db.metadata.deletion_timestamp)
gone_of (err e) = if is_not_found e then pure true else fail (wrapped "get serenedb" e)

-- The drop and what follows it, once it is known whether there is a session. The session is closed
-- at the end of `finalize`, by its `defer`.
abbrev pub after_open : Op (Unit {0}) → Op CtrlResult → Outcome (Unit {0}) → Op CtrlResult
after_open drop rest (done u) = closing (do wrapping "drop on server" drop; rest)
after_open drop rest (stopped b) = pure missing_dependency_requeue
after_open drop rest (failed e) = fail e
after_open drop rest panicked = panic

module _ (env : Env) where
  unfoldable pub cluster_gone : (namespace cluster : String) → Op Bool
  cluster_gone namespace cluster = do
    let key : NamespacedName = record { namespace = namespace; name = cluster }
    got ← perform (get_object a_serenedb key) (λ h. env.get_serenedb h key)
    gone_of got

  -- The tail of `finalize`: the object is updated without the finalizer.
  unfoldable pub remove_finalizer : Finalized → Op CtrlResult
  remove_finalizer obj = do
    let metadata = record (obj.metadata) {
      finalizers = env.lib.remove_finalizer obj.metadata.finalizers dependent_finalizer;
    }
    answer ← ask env (update (obj.rebuild metadata))
    removed answer

  -- The drop on the server, and what follows it.
  unfoldable pub drop_on_server :
      (namespace cluster : String) → Op (Unit {0}) → Op CtrlResult → Op CtrlResult
  drop_on_server namespace cluster drop rest = do
    opened ← capture (open_session env namespace cluster)
    after_open drop rest opened

  -- `if drop != nil && !gone { … }`, and what follows it.
  abbrev pub drop_unless :
      Bool → (namespace cluster : String) → Option (Op (Unit {0})) → Op CtrlResult → Op CtrlResult
  drop_unless gone namespace cluster none rest = rest
  drop_unless gone namespace cluster (some drop) rest =
      if gone then rest else drop_on_server namespace cluster drop rest

  -- Runs the server-side drop when one is wanted and the SereneDB still exists, then removes the
  -- finalizer.
  unfoldable pub finalize : Finalized → (cluster : String) → Option (Op (Unit {0})) → Op CtrlResult
  finalize obj cluster wanted =
      if not (env.lib.contains_finalizer obj.metadata.finalizers dependent_finalizer)
      then pure no_requeue
      else do
        gone ← cluster_gone obj.metadata.namespace cluster
        drop_unless gone obj.metadata.namespace cluster wanted (remove_finalizer obj)

  -- Adds the finalizer and reports whether an update was issued.
  unfoldable pub ensure_finalizer : Finalized → Op Bool
  ensure_finalizer obj =
      if env.lib.contains_finalizer obj.metadata.finalizers dependent_finalizer
      then pure false
      else do
        let metadata = record (obj.metadata) {
          finalizers = env.lib.add_finalizer obj.metadata.finalizers dependent_finalizer;
        }
        answer ← ask env (update (obj.rebuild metadata))
        added answer
