-- ===== src/Controller/Server/Laws.antt =====
-- `Reconcile` of internal/controller/serenedb_controller.go: the status is written once.
use serenedb_operator.Resources.Secret.Laws.{generated_secret-some, DrawsBelow}
use serenedb_operator.Prelude.{is_some, false, suc, ◌≡◌, refl, String, none, arith, not, ◌==◌}
use serenedb_operator.Errors.{Result, ok, err, precondition, is_not_found}
use serenedb_operator.Api.Core.{StatefulSet, Secret}
use serenedb_operator.Api.SereneDb.{SereneDb}
use serenedb_operator.Controller.Kube.{Env, History, get_object, a_secret}
use serenedb_operator.Controller.Op.{Outcome, done, stopped, failed, panicked, perform}
use serenedb_operator.Controller.Trace.{
  Quiet, IsTotal-capture, IsTotal-if, IsTotal-bind, is_panic, IsTotal, IsCalm-if, IsCalm-bind,
  IsCalm, count_of, is_status_patch, Quiet-perform,
}
use serenedb_operator.Api.Meta.{NamespacedName}
use serenedb_operator.Resources.Names.{name}
use serenedb_operator.Controller.Server.Secrets.{
  reconcile_secret, check_existing_secret, check_key, create_generated_secret, generated_found,
  sync_secret_ownership,
}
use serenedb_operator.Controller.Server.{
  no_requeue, pure, a_serenedb, after_get, reconcile, reconcile_resources, reconcile_object,
  after_resources, report, conclude, check_tls_secret, reconcile_config_map, apply_service,
  reconcile_services, reconcile_stateful_set, reconcile_network_policy, delete_owned_network_policy,
}

module _ (env : Env) where
  check_key-IsCalm :
      (shown : String) (db : SereneDb) (s : Secret)
      → IsCalm is_status_patch (check_key env shown db s)
  unfolding check_key count_of
  check_key-IsCalm shown db s = (λ h. ground arith, λ h. ground arith)

  create_generated_secret-Quiet :
      (db : SereneDb) → Quiet is_status_patch (create_generated_secret env db)
  unfolding create_generated_secret count_of
  create_generated_secret-Quiet db h = ground arith

  create_generated_secret-IsTotal :
      ((h : History) → DrawsBelow (env.rand h))
      → (db : SereneDb) → IsTotal (create_generated_secret env db)
  unfolding create_generated_secret
  create_generated_secret-IsTotal below db h =
      let (r, q) = generated_secret-some (env.rand h) (below h) db in ground arith

  sync_secret_ownership-IsCalm :
      (db : SereneDb) (s : Secret) → IsCalm is_status_patch (sync_secret_ownership env db s)
  unfolding sync_secret_ownership count_of
  sync_secret_ownership-IsCalm db s = (λ h. ground arith, λ h. ground arith)

  check_existing_secret-IsCalm :
      (db : SereneDb) → IsCalm is_status_patch (check_existing_secret env db)
  unfolding check_existing_secret check_key count_of
  check_existing_secret-IsCalm db = (λ h. ground arith, λ h. ground arith)

  check_tls_secret-IsCalm : (db : SereneDb) → IsCalm is_status_patch (check_tls_secret env db)
  unfolding check_tls_secret count_of
  check_tls_secret-IsCalm db = (λ h. ground arith, λ h. ground arith)

  reconcile_config_map-IsCalm :
      (db : SereneDb) → IsCalm is_status_patch (reconcile_config_map env db)
  unfolding reconcile_config_map count_of
  reconcile_config_map-IsCalm db = (λ h. ground arith, λ h. ground arith)

  reconcile_services-IsCalm : (db : SereneDb) → IsCalm is_status_patch (reconcile_services env db)
  unfolding reconcile_services apply_service count_of
  reconcile_services-IsCalm db = (λ h. ground arith, λ h. ground arith)

  reconcile_stateful_set-IsCalm :
      (db : SereneDb) (hash : String) → IsCalm is_status_patch (reconcile_stateful_set env db hash)
  unfolding reconcile_stateful_set count_of
  reconcile_stateful_set-IsCalm db hash = (λ h. ground arith, λ h. ground arith)

  reconcile_network_policy-IsCalm :
      (db : SereneDb) → IsCalm is_status_patch (reconcile_network_policy env db)
  unfolding reconcile_network_policy delete_owned_network_policy count_of
  reconcile_network_policy-IsCalm db = (λ h. ground arith, λ h. ground arith)

  report_writes :
      (db : SereneDb) (r : Result StatefulSet) (h : History)
      → count_of is_status_patch (report env db r h).1 ≡ suc (count_of is_status_patch h)
  unfolding report conclude count_of
  report_writes db r h = ground arith

  report-IsTotal : (db : SereneDb) (r : Result StatefulSet) → IsTotal (report env db r)
  unfolding report conclude
  report-IsTotal db r h = ground arith

  after_resources_writes :
      (db : SereneDb) (o : Outcome StatefulSet) (h : History)
      → is_panic o ≡ false
      → (count_of is_status_patch (after_resources env db o h).1 ≡ suc (count_of is_status_patch h))
        × (is_panic (after_resources env db o h).0 ≡ false)
  unfolding after_resources
  after_resources_writes db (done sts) h n =
      (report_writes db (ok sts) h, report-IsTotal db (ok sts) h)
  after_resources_writes db (stopped b) h n =
      (report_writes db (err (precondition b)) h, report-IsTotal db (err (precondition b)) h)
  after_resources_writes db (failed e) h n =
      (report_writes db (err e) h, report-IsTotal db (err e) h)
  after_resources_writes db panicked h n = absurd (ground arith)

  -- The draws of `rand.Int` are below the size of the alphabet that it is given.
  module _ (below : (h : History) → DrawsBelow (env.rand h)) where
    generated_found-IsCalm :
        (db : SereneDb) (r : Result Secret) → IsCalm is_status_patch (generated_found env db r)
    generated_found-IsCalm db (ok s) =
        IsCalm-bind is_status_patch (check_key env s.metadata.name db s) _
          (check_key-IsCalm s.metadata.name db s) (λ u. sync_secret_ownership-IsCalm db s)
    generated_found-IsCalm db (err e) =
        IsCalm-if is_status_patch (is_not_found e) (create_generated_secret env db) _
          (create_generated_secret-Quiet db, create_generated_secret-IsTotal below db)
          ((λ h. refl), λ h. refl)

    reconcile_secret-IsCalm : (db : SereneDb) → IsCalm is_status_patch (reconcile_secret env db)
    unfolding reconcile_secret
    reconcile_secret-IsCalm db =
        let key : NamespacedName = record { namespace = db.metadata.namespace; name = name db } in
        IsCalm-if is_status_patch (not (db.spec.auth.existing_secret == ""))
          (check_existing_secret env db) _ (check_existing_secret-IsCalm db)
          (IsCalm-bind is_status_patch
            (perform (get_object a_secret key) (λ h. env.get_secret h key)) (generated_found env db)
            (Quiet-perform is_status_patch _ _ refl, λ h. refl) (generated_found-IsCalm db))

    reconcile_resources-IsCalm :
        (db : SereneDb) → IsCalm is_status_patch (reconcile_resources env db)
    unfolding reconcile_resources
    reconcile_resources-IsCalm db =
        IsCalm-bind is_status_patch (reconcile_secret env db) _ (reconcile_secret-IsCalm db) λ u.
          IsCalm-bind is_status_patch (check_tls_secret env db) _ (check_tls_secret-IsCalm db) λ v.
            IsCalm-bind is_status_patch (reconcile_config_map env db) _
              (reconcile_config_map-IsCalm db)
              λ hash.
                IsCalm-bind is_status_patch (reconcile_services env db) _
                  (reconcile_services-IsCalm db)
                  λ w.
                    IsCalm-bind is_status_patch (reconcile_stateful_set env db hash) _
                      (reconcile_stateful_set-IsCalm db hash)
                      λ sts.
                        IsCalm-bind is_status_patch (reconcile_network_policy env db) _
                          (reconcile_network_policy-IsCalm db) λ x. ((λ h. refl), λ h. refl)

    -- A reconcile of a SereneDB that is not under deletion writes the status exactly once, whether the
    -- resources were applied or not; and it does not panic, where the draws of `rand.Int` are below the
    -- size of the alphabet that it is given, as that function documents.
    pub reconcile_object_reports :
        (db : SereneDb) (h : History)
        → db.metadata.deletion_timestamp ≡ none
        → (count_of is_status_patch (reconcile_object env db h).1
            ≡ suc (count_of is_status_patch h))
          × (is_panic (reconcile_object env db h).0 ≡ false)
    unfolding reconcile_object
    reconcile_object_reports db h alive =
        let (applied, h1) = reconcile_resources env db h in
        let calm = reconcile_resources-IsCalm db in
        let written = after_resources_writes db applied h1 (calm.1 h) in
        (ground (arith, calm.0 h, written.0), ground (arith, written.1))

    got-IsTotal : (r : Result SereneDb) → IsTotal (after_get env r)
    unfolding reconcile_object
    got-IsTotal (ok db) h =
        IsTotal-if (is_some db.metadata.deletion_timestamp) (pure no_requeue) _ (λ h. refl)
          (IsTotal-capture (reconcile_resources env db) (after_resources env db)
            (reconcile_resources-IsCalm db).1 (λ r n h1. (after_resources_writes db r h1 n).1))
          h
    got-IsTotal (err e) h = ground arith

    -- A reconcile of a SereneDB never panics.
    pub reconcile_server-IsTotal : (request : NamespacedName) → IsTotal (reconcile env request)
    unfolding reconcile
    reconcile_server-IsTotal request =
        IsTotal-bind (perform (get_object a_serenedb request) (λ h. env.get_serenedb h request))
          (after_get env) (λ h. refl) got-IsTotal
