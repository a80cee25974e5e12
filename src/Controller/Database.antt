-- ===== src/Controller/Database.antt =====
-- internal/controller/database_controller.go
pub mod Laws
pub mod Converges
use serenedb_operator.Prelude.{String, Bool, true, false, Option, none, some, if◌then◌else◌, ◌==◌}
use serenedb_operator.Errors.{Result, ok, err, wrapped, error_message}
use serenedb_operator.Statements.{database_exists, create_database, drop_database}
use serenedb_operator.Api.Meta.{NamespacedName, ObjectMeta, reclaim_delete}
use serenedb_operator.Api.Dependents.{Database}
use serenedb_operator.Controller.Kube.{Env, Library, get_object, a_database, database, patch_status}
use serenedb_operator.Controller.Op.{
  Op, Outcome, done, stopped, failed, panicked, pure, fail, stop, panic, lift, perform, ask,
  capture, CtrlResult, no_requeue, ignore_not_found, name_or_default, exec_sql, exists, ◌>>=◌, ◌>>◌,
}
use serenedb_operator.Controller.Session.{with_session, blocked}
use serenedb_operator.Controller.Finalize.{Finalized, finalize, ensure_finalizer}
use serenedb_operator.Prelude.{is_some}
use serenedb_operator.Controller.Outcome.{outcome, reason_invalid_spec}

-- `if err != nil { return &blocked{reasonInvalidSpec, err.Error()} }`
abbrev pub valid_or_stop : Result String → Op String
valid_or_stop (ok s) = pure s
valid_or_stop (err e) = stop (blocked reason_invalid_spec (error_message e))

-- `if err := r.Status().Patch(…); err != nil { return fmt.Errorf("update status: %w", err) }`
abbrev pub status_patched : CtrlResult → Result (Unit {0}) → Op CtrlResult
status_patched result (ok u) = pure result
status_patched result (err e) = fail (wrapped "update status" e)

abbrev pub finalized_database : Database → Finalized
finalized_database db = record {
  metadata = db.metadata;
  rebuild = λ m. database (record db { metadata = m });
}

module _ (env : Env) where
  unfoldable pub create_if_missing : String → Bool → Op (Unit {0})
  create_if_missing name present =
      if present then pure tt else exec_sql env (create_database env.lib.sanitize name)

  unfoldable pub apply : Database → String → Op (Unit {0})
  apply db name = with_session env db.metadata.namespace db.spec.cluster.name (do
    query ← valid_or_stop (database_exists name)
    present ← exists env query
    create_if_missing name present)

  unfoldable pub drop_if_present : String → Bool → Op (Unit {0})
  drop_if_present name present =
      if present then exec_sql env (drop_database env.lib.sanitize name) else pure tt

  unfoldable pub drop_the_database : String → Op (Unit {0})
  drop_the_database name = do
    query ← lift (database_exists name)
    present ← exists env query
    drop_if_present name present

  -- The drop that the reclaim policy asks for.
  abbrev pub wanted_drop : Database → String → Option (Op (Unit {0}))
  wanted_drop db name =
      if db.spec.reclaim_policy == reclaim_delete then some (drop_the_database name) else none

  -- The status that an application leaves, and its requeue; a panic goes on.
  unfoldable pub record_outcome : Database → Outcome (Unit {0}) → Op CtrlResult
  record_outcome db panicked = panic
  record_outcome db applied = do
    let (conditions, result) = outcome env.lib db.status.conditions db.metadata.generation applied
    let updated = record db {
      status = record { observed_generation = db.metadata.generation; conditions = conditions };
    }
    answer ← ask env (patch_status (database db) (database updated))
    status_patched result answer

  unfoldable pub apply_and_record : Database → String → Bool → Op CtrlResult
  apply_and_record db name added =
      if added
      then pure no_requeue
      else do applied ← capture (apply db name); record_outcome db applied

  -- `Reconcile` behind the read of the object.
  unfoldable pub reconcile_object : Database → Op CtrlResult
  reconcile_object db =
      let name = name_or_default db.spec.name db.metadata.name in
      if is_some db.metadata.deletion_timestamp
      then finalize env (finalized_database db) db.spec.cluster.name (wanted_drop db name)
      else do added ← ensure_finalizer env (finalized_database db); apply_and_record db name added

  abbrev pub after_get : Result Database → Op CtrlResult
  after_get (ok db) = reconcile_object db
  after_get (err e) = ignore_not_found e

  unfoldable pub reconcile : NamespacedName → Op CtrlResult
  reconcile request = do
    got ← perform (get_object a_database request) (λ h. env.get_database h request)
    after_get got
