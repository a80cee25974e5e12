-- ===== src/Tests/Wiring.antt =====
-- Examples: a manager that takes every call, and a client over a small store.
use serenedb_operator.Manager.Setup.{
  cluster_of_backup, secret_of_server_secret, cluster_of_server_secret, secret_of_role,
  cluster_of_role, cluster_index, cluster_of_database, setup_controllers,
}
use serenedb_operator.Manager.Calls.{noted, is_refused, refused, starts}
use serenedb_operator.Controller.Kube.{a_database, a_role, a_server_secret, Kind}
use serenedb_operator.Api.Meta.{NamespacedName}
use serenedb_operator.Prelude.{
  ◌⊎◌, ◌≡◌, String, Option, none, some, List, [], ◌∷◌, map, filter, if◌then◌else◌, ◌==◌, ◌<>◌,
}
use serenedb_operator.Errors.{Err, ok}
use serenedb_operator.Manager.{start, Extract, index_field, TlsConfig, Manager, Call, Trace}
use serenedb_operator.Manager.Registered.{Registered}
use serenedb_operator.Manager.Requests.{ListApi}
use serenedb_operator.Manager.Requests.Laws.{Store, is_selected, objects, key_of, meta_of}
use serenedb_operator.Command.{Flags, default_flags, main, manager_options}
use serenedb_operator.Command.Laws.{
  main-starts_last, manager_options-apply_opts, apply_opts, files_in, expected, all_names,
}
use serenedb_operator.Tests.World.{database, role, server_secret, backup}

abbrev takes_all : Manager
takes_all t c = none

abbrev join_by_slash : String → String → String
join_by_slash dir file = dir <> "/" <> file

abbrev with_certificate : Flags
with_certificate = record default_flags { webhook_cert_path = "/certs" }

main-starts_last_example :
    let (exit_status, t) = main join_by_slash with_certificate takes_all [] in
    ((starts t ≡ 0) × (refused t ≡ 1) × (exit_status ≡ 1))
    ⊎ ((h : Trace) × (e : Option Err) × (t ≡ record { call = start; error = e } ∷ h)
        × (exit_status ≡ (if is_refused e then 1 else 0))
        × (starts h ≡ 0)
        × (refused h ≡ 0)
        × (noted h ≡ all_names join_by_slash with_certificate takes_all))
main-starts_last_example = main-starts_last join_by_slash with_certificate takes_all

abbrev plain_config : TlsConfig
plain_config = record { next_protos = "h2" ∷ "http/1.1" ∷ []; get_certificate = none }

manager_options-apply_opts_example :
    let o = manager_options join_by_slash with_certificate in
    (apply_opts o.webhook_tls_opts plain_config
      ≡ expected with_certificate.enable_http2
          (files_in join_by_slash with_certificate.webhook_cert_path
            with_certificate.webhook_cert_name with_certificate.webhook_cert_key)
          plain_config)
    × (apply_opts o.metrics.tls_opts plain_config
        ≡ expected with_certificate.enable_http2
            (files_in join_by_slash with_certificate.metrics_cert_path
              with_certificate.metrics_cert_name with_certificate.metrics_cert_key)
            plain_config)
manager_options-apply_opts_example =
    manager_options-apply_opts join_by_slash with_certificate plain_config

abbrev store : Store
store = record {
  databases = database ∷ [];
  roles = role ∷ [];
  server_secrets = server_secret ∷ [];
  backups = backup ∷ [];
}

-- The index functions, by kind and name.
abbrev extract_of : Kind → String → Extract
extract_of a_database index = cluster_of_database
extract_of a_role index = if index == cluster_index then cluster_of_role else secret_of_role
extract_of a_server_secret index =
    if index == cluster_index then cluster_of_server_secret else secret_of_server_secret
extract_of _ index = cluster_of_backup

abbrev found : Kind → String → Extract → String → List (Option NamespacedName)
found kind namespace extract value =
    map (λ o. some (key_of (meta_of o)))
      (filter (is_selected extract namespace value) (objects store kind))

abbrev client : ListApi
client = record {
  ObjectList = List (Option NamespacedName);
  list = λ kind namespace index value. ok (found kind namespace (extract_of kind index) value);
  extract_list = λ fresh. ok fresh;
}

abbrev done_setup : Trace
done_setup = (setup_controllers takes_all []).1

-- What the client owes to one call.
abbrev Served : Call → Type 0
Served (index_field kind index extract) =
    (namespace value : String)
    → (fresh : List (Option NamespacedName)) × (client.list kind namespace index value ≡ ok fresh)
      × (client.extract_list fresh ≡ ok (found kind namespace extract value))
Served _ = Unit
