-- ===== src/Controller/Server.antt =====
-- internal/controller/serenedb_controller.go: `Reconcile` and `reconcileResources`. The status, the
-- updates of owned objects and the password Secret have modules of their own.
pub mod Laws
pub mod Status
pub mod Mutate
pub mod Secrets
use serenedb_operator.Prelude.{String, Bool, Option, none, some, not, if◌then◌else◌, ◌==◌, ◌<>◌}
use serenedb_operator.Errors.{
  Err, Result, ok, err, wrapped, precondition, Blocked, is_not_found, quoted,
}
use serenedb_operator.Api.Meta.{NamespacedName, ObjectMeta}
use serenedb_operator.Api.Core.{ConfigMap, Service, StatefulSet, NetworkPolicy}
use serenedb_operator.Api.SereneDb.{SereneDb}
use serenedb_operator.Resources.Config.{config_map, config_hash}
use serenedb_operator.Resources.Service.{service, headless_service}
use serenedb_operator.Resources.StatefulSet.{stateful_set}
use serenedb_operator.Resources.NetworkPolicy.{network_policy}
use serenedb_operator.Controller.Kube.{
  Env, Library, Call, get_object, create_or_update, delete, patch_status, serenedb,
  network_policy as policy_object, a_serenedb, a_config_map, a_service, a_stateful_set,
  a_network_policy, a_secret,
}
use serenedb_operator.Controller.Op.{
  Op, Outcome, done, stopped, failed, panicked, pure, fail, panic, perform, ask, capture, wrapping,
  CtrlResult, no_requeue, ignore_not_found, ◌>>=◌, ◌>>◌,
}
use serenedb_operator.Controller.Session.{blocked}
use serenedb_operator.Controller.Finalize.{missing_dependency_requeue}
use serenedb_operator.Prelude.{is_some}
use Status.{describe, as_blocked}
use Mutate.{mutate_config_map, mutate_service, mutate_stateful_set, mutate_network_policy}
use Secrets.{reconcile_secret}

abbrev pub reason_tls_secret_missing : String
reason_tls_secret_missing = "TLSSecretMissing"

abbrev pub reason_tls_secret_required : String
reason_tls_secret_required = "TLSSecretNameRequired"

abbrev pub key_of : ObjectMeta → NamespacedName
key_of m = record { namespace = m.namespace; name = m.name }

-- `if err != nil { return fmt.Errorf("text: %w", err) }`
abbrev pub ok_or : {A : Type 0} → String → Result A → Op A
ok_or s (ok a) = pure a
ok_or s (err e) = fail (wrapped s e)

abbrev pub ok_or_raw : {A : Type 0} → Result A → Op A
ok_or_raw (ok a) = pure a
ok_or_raw (err e) = fail e

module _ (env : Env) where
  abbrev tls_found : {A : Type 0} → SereneDb → Result A → Op (Unit {0})
  tls_found db (ok s) = pure tt
  tls_found db (err e) =
      if is_not_found e
      then fail (
          precondition (
            blocked reason_tls_secret_missing
              ("tls secret " <> quoted db.spec.tls.secret_name <> " not found")))
      else fail (wrapped "get tls secret" e)

  unfoldable pub check_tls_secret : SereneDb → Op (Unit {0})
  check_tls_secret db =
      if not db.spec.tls.enabled
      then pure tt
      else if db.spec.tls.secret_name == ""
      then fail (
          precondition (
            blocked reason_tls_secret_required
              "tls.secretName is required when tls.enabled is true"))
      else do
        let key : NamespacedName = record {
          namespace = db.metadata.namespace;
          name = db.spec.tls.secret_name;
        }
        got ← perform (get_object a_secret key) (λ h. env.get_secret h key)
        tls_found db got

  unfoldable pub reconcile_config_map : SereneDb → Op String
  reconcile_config_map db = do
    let desired = config_map db
    let key = key_of desired.metadata
    got ←
        perform (create_or_update a_config_map key)
          (λ h. env.apply_config_map h key (mutate_config_map env.lib db desired))
    ok_or "reconcile configmap" got
    pure (config_hash env.lib.sha256_hex desired)

  unfoldable pub apply_service : SereneDb → Service → Op Service
  apply_service db desired = do
    let key = key_of desired.metadata
    got ←
        perform (create_or_update a_service key)
          (λ h. env.apply_service h key (mutate_service env.lib db desired))
    ok_or_raw got

  unfoldable pub reconcile_services : SereneDb → Op (Unit {0})
  reconcile_services db = do
    wrapping "reconcile service" (apply_service db (service db))
    wrapping "reconcile headless service" (apply_service db (headless_service db))
    pure tt

  unfoldable pub reconcile_stateful_set : SereneDb → String → Op StatefulSet
  reconcile_stateful_set db hash = do
    let desired = stateful_set db hash
    let key = key_of desired.metadata
    got ←
        perform (create_or_update a_stateful_set key)
          (λ h. env.apply_stateful_set h key (mutate_stateful_set env.lib db desired))
    ok_or "reconcile statefulset" got

  abbrev policy_deleted : Result (Unit {0}) → Op (Unit {0})
  policy_deleted (ok u) = pure tt
  policy_deleted (err e) =
      if is_not_found e then pure tt else fail (wrapped "delete networkpolicy" e)

  abbrev policy_found : SereneDb → Result NetworkPolicy → Op (Unit {0})
  policy_found db (err e) = if is_not_found e then pure tt else fail (wrapped "get networkpolicy" e)
  policy_found db (ok existing) =
      if not (env.lib.is_controlled_by existing.metadata db.metadata)
      then pure tt
      else do answer ← ask env (delete (policy_object existing)); policy_deleted answer

  unfoldable pub delete_owned_network_policy : SereneDb → NetworkPolicy → Op (Unit {0})
  delete_owned_network_policy db desired = do
    let key = key_of desired.metadata
    got ← perform (get_object a_network_policy key) (λ h. env.get_network_policy h key)
    policy_found db got

  unfoldable pub reconcile_network_policy : SereneDb → Op (Unit {0})
  reconcile_network_policy db =
      let desired = network_policy db in
      let key = key_of desired.metadata in
      if not db.spec.network_policy.enabled then delete_owned_network_policy db desired else do
        got ←
            perform (create_or_update a_network_policy key)
              (λ h. env.apply_network_policy h key (mutate_network_policy env.lib db desired))
        ok_or "reconcile networkpolicy" got
        pure tt

  unfoldable pub reconcile_resources : SereneDb → Op StatefulSet
  reconcile_resources db = do
    reconcile_secret env db
    check_tls_secret db
    hash ← reconcile_config_map db
    reconcile_services db
    sts ← reconcile_stateful_set db hash
    reconcile_network_policy db
    pure sts

  -- The end of `Reconcile`: a precondition asks for a requeue, any other error is returned.
  unfoldable pub conclude : Result StatefulSet → Op CtrlResult
  conclude (ok sts) = pure no_requeue
  conclude (err e) = elim (as_blocked e) [
    | some b ↦ pure missing_dependency_requeue
    | none ↦ fail e
  ]

  -- The status is written, and then the outcome of the resources is returned.
  unfoldable pub report : SereneDb → Result StatefulSet → Op CtrlResult
  report db applied = do
    answer ← ask env (patch_status (serenedb db) (serenedb (describe env.lib db applied)))
    ok_or "update status" answer
    conclude applied

  unfoldable pub after_resources : SereneDb → Outcome StatefulSet → Op CtrlResult
  after_resources db (done sts) = report db (ok sts)
  after_resources db (failed e) = report db (err e)
  after_resources db (stopped b) = report db (err (precondition b))
  after_resources db panicked = panic

  -- `Reconcile` behind the read of the object.
  unfoldable pub reconcile_object : SereneDb → Op CtrlResult
  reconcile_object db =
      if is_some db.metadata.deletion_timestamp
      then pure no_requeue
      else do applied ← capture (reconcile_resources db); after_resources db applied

  abbrev pub after_get : Result SereneDb → Op CtrlResult
  after_get (ok db) = reconcile_object db
  after_get (err e) = ignore_not_found e

  unfoldable pub reconcile : NamespacedName → Op CtrlResult
  reconcile request = do
    got ← perform (get_object a_serenedb request) (λ h. env.get_serenedb h request)
    after_get got
