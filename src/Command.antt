-- ===== src/Command.antt =====
-- cmd/main.go: the flags, and `main` behind their parsing. The TLS options are Go functions that change
-- a configuration; their slices are values here, since every `append` to a slice that is shared
-- meets one without spare room: an append to a nil slice makes room for its elements alone.
pub mod Laws
use serenedb_operator.Errors.{Err}
use serenedb_operator.Prelude.{
  ◌==◌, ◌++◌, ℕ, if◌then◌else◌, String, Bool, true, false, Option, none, some, List, [], ◌∷◌,
}
use serenedb_operator.Manager.{
  Manager, Setup, TlsConfig, CertWatcher, MetricsOptions, ManagerOptions, Trace, ask, nothing,
  new_cert_watcher, get_config, new_manager, add_cert_watcher, add_healthz_check, add_readyz_check,
  start, ◌and_then◌,
}
use serenedb_operator.Manager.Setup.{
  setup_controllers, setup_serenedb, setup_database, setup_role, setup_server_secret, setup_backup,
  setup_scheduled_backup,
}

pub record Flags : Type 0 where
  pub metrics_addr : String
  pub probe_addr : String
  pub enable_leader_election : Bool
  pub secure_metrics : Bool
  pub webhook_cert_path : String
  pub webhook_cert_name : String
  pub webhook_cert_key : String
  pub metrics_cert_path : String
  pub metrics_cert_name : String
  pub metrics_cert_key : String
  pub enable_http2 : Bool

-- The flags of a command line without any.
abbrev pub default_flags : Flags
default_flags = record {
  metrics_addr = "0";
  probe_addr = ":8081";
  enable_leader_election = false;
  secure_metrics = true;
  webhook_cert_path = "";
  webhook_cert_name = "tls.crt";
  webhook_cert_key = "tls.key";
  metrics_cert_path = "";
  metrics_cert_name = "tls.crt";
  metrics_cert_key = "tls.key";
  enable_http2 = false;
}

abbrev pub disable_http2 : TlsConfig → TlsConfig
disable_http2 c = record c { next_protos = "http/1.1" ∷ [] }

abbrev pub serve_certificate : CertWatcher → TlsConfig → TlsConfig
serve_certificate w c = record c { get_certificate = some w }

-- `if len(path) > 0` round a watcher of the certificate in that directory.
abbrev pub watcher_in : (String → String → String) → String → String → String → Option CertWatcher
watcher_in join_path path name key =
    if path == ""
    then none
    else some (record { certificate = join_path path name; key = join_path path key })

abbrev pub with_watcher :
    Option CertWatcher → List (TlsConfig → TlsConfig) → List (TlsConfig → TlsConfig)
with_watcher none opts = opts
with_watcher (some w) opts = opts ++ serve_certificate w ∷ []

module _ (join_path : String → String → String) (flags : Flags) where
  abbrev pub tls_opts : List (TlsConfig → TlsConfig)
  tls_opts = if flags.enable_http2 then [] else disable_http2 ∷ []

  abbrev pub webhook_watcher : Option CertWatcher
  webhook_watcher =
      watcher_in join_path flags.webhook_cert_path flags.webhook_cert_name flags.webhook_cert_key

  abbrev pub metrics_watcher : Option CertWatcher
  metrics_watcher =
      watcher_in join_path flags.metrics_cert_path flags.metrics_cert_name flags.metrics_cert_key

  unfoldable pub manager_options : ManagerOptions
  manager_options = record {
    metrics = record {
      bind_address = flags.metrics_addr;
      secure_serving = flags.secure_metrics;
      tls_opts = with_watcher metrics_watcher tls_opts;
      authenticates = flags.secure_metrics;
    };
    webhook_tls_opts = with_watcher webhook_watcher tls_opts;
    health_probe_bind_address = flags.probe_addr;
    leader_election = flags.enable_leader_election;
    leader_election_id = "8fb4a3ca.serenedb.com";
  }

  module _ (m : Manager) where
    abbrev pub new_watcher : Option CertWatcher → Setup
    new_watcher none = nothing
    new_watcher (some w) = ask m (new_cert_watcher w)

    abbrev pub add_watcher : Option CertWatcher → Setup
    add_watcher none = nothing
    add_watcher (some w) = ask m (add_cert_watcher w)

    unfoldable pub run : Setup
    run =
        new_watcher webhook_watcher
        and_then new_watcher metrics_watcher
        and_then ask m get_config
        and_then ask m (new_manager manager_options)
        and_then setup_controllers m
        and_then add_watcher metrics_watcher
        and_then add_watcher webhook_watcher
        and_then ask m (add_healthz_check "healthz")
        and_then ask m (add_readyz_check "readyz")
        and_then ask m start

    -- `os.Exit(1)` on any error; the status 0 where `main` returns.
    abbrev pub status : Option Err → ℕ
    status none = 0
    status (some e) = 1

    -- The exit status of the process, and the calls that it made.
    unfoldable pub main : Trace → ℕ × Trace
    main t = let (e, t1) = run t in (status e, t1)
