-- ===== src/Controller/ServerSecret.antt =====
-- internal/controller/serversecret_controller.go
pub mod Laws
use serenedb_operator.Prelude.{
  String, Bool, true, false, Option, none, some, List, [], ◌∷◌, if◌then◌else◌, ◌<>◌,
}
use serenedb_operator.Prelude.Dict.{Dict, copy}
use serenedb_operator.Errors.{Result, ok, err, quoted}
use serenedb_operator.Statements.{secret_exists, create_secret, drop_secret}
use serenedb_operator.Api.Meta.{NamespacedName}
use serenedb_operator.Api.Core.{Secret}
use serenedb_operator.Api.Dependents.{ServerSecret, ServerSecretSpec}
use serenedb_operator.Controller.Kube.{
  Env, Library, get_object, a_server_secret, a_secret, server_secret, patch_status,
}
use serenedb_operator.Controller.Op.{
  Op, Outcome, done, stopped, failed, panicked, pure, fail, stop, panic, lift, found_or, perform,
  ask, capture, CtrlResult, no_requeue, ignore_not_found, name_or_default, exec_sql, exists, ◌>>=◌,
  ◌>>◌,
}
use serenedb_operator.Controller.Session.{with_session, blocked}
use serenedb_operator.Controller.Finalize.{Finalized, finalize, ensure_finalizer}
use serenedb_operator.Prelude.{is_some}
use serenedb_operator.Controller.Outcome.{outcome}
use serenedb_operator.Controller.Database.{valid_or_stop, status_patched}

abbrev pub reason_values_secret_missing : String
reason_values_secret_missing = "ValuesSecretMissing"

abbrev pub finalized_server_secret : ServerSecret → Finalized
finalized_server_secret s = record {
  metadata = s.metadata;
  rebuild = λ m. server_secret (record s { metadata = m });
}

module _ (env : Env) where
  -- The inline options with every key of the referenced Secret laid over them, and the Secret's
  -- resourceVersion.
  unfoldable pub options_of : String → Dict String → Option String → Op (Dict String × String)
  options_of namespace inline none = pure (copy [] inline, "")
  options_of namespace inline (some name) = do
    let key : NamespacedName = record { namespace = namespace; name = name }
    got ← perform (get_object a_secret key) (λ h. env.get_secret h key)
    values ←
        found_or (blocked reason_values_secret_missing ("secret " <> quoted name <> " not found"))
          "get values secret" got
    pure (copy (copy [] inline) values.content, values.metadata.resource_version)

  -- The secret with the version of the values that were applied.
  unfoldable pub apply : ServerSecret → String → Op ServerSecret
  apply s name = do
    (options, version) ← options_of s.metadata.namespace s.spec.options s.spec.values_from
    statement ←
        valid_or_stop (create_secret env.lib.sanitize name s.spec.secret_type s.spec.scope options)
    with_session env s.metadata.namespace s.spec.cluster.name (exec_sql env statement)
    pure (record s { values_secret_version = version })

  unfoldable pub drop_if_present : String → Bool → Op (Unit {0})
  drop_if_present name present =
      if present then exec_sql env (drop_secret env.lib.sanitize name) else pure tt

  unfoldable pub drop_server_secret : String → Op (Unit {0})
  drop_server_secret name = do
    query ← lift (secret_exists name)
    present ← exists env query
    drop_if_present name present

  abbrev pub applied_secret : ServerSecret → Outcome ServerSecret → ServerSecret
  applied_secret s (done s') = s'
  applied_secret s _ = s

  unfoldable pub record_outcome : ServerSecret → Outcome ServerSecret → Op CtrlResult
  record_outcome s panicked = panic
  record_outcome s applied = do
    let (conditions, result) = outcome env.lib s.status.conditions s.metadata.generation applied
    let updated = record (applied_secret s applied) {
      status = record { observed_generation = s.metadata.generation; conditions = conditions };
    }
    answer ← ask env (patch_status (server_secret s) (server_secret updated))
    status_patched result answer

  unfoldable pub apply_and_record : ServerSecret → String → Bool → Op CtrlResult
  apply_and_record s name added =
      if added
      then pure no_requeue
      else do applied ← capture (apply s name); record_outcome s applied

  -- `Reconcile` behind the read of the object: the drop is wanted at every deletion.
  unfoldable pub reconcile_object : ServerSecret → Op CtrlResult
  reconcile_object s =
      let name = name_or_default s.spec.name s.metadata.name in
      if is_some s.metadata.deletion_timestamp
      then finalize env (finalized_server_secret s) s.spec.cluster.name
          (some (drop_server_secret name))
      else do
        added ← ensure_finalizer env (finalized_server_secret s)
        apply_and_record s name added

  abbrev pub after_get : Result ServerSecret → Op CtrlResult
  after_get (ok s) = reconcile_object s
  after_get (err e) = ignore_not_found e

  unfoldable pub reconcile : NamespacedName → Op CtrlResult
  reconcile request = do
    got ← perform (get_object a_server_secret request) (λ h. env.get_server_secret h request)
    after_get got
