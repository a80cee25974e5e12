-- ===== src/Manager.antt =====
-- The calls of controller-runtime by which cmd/main.go and the `SetupWithManager` methods of
-- internal/controller register what the process runs. The manager is a parameter: it takes or
-- refuses a call, by what it was told before.
pub mod Reconcilers
pub mod Setup
pub mod Calls
pub mod Registered
pub mod Requests
use serenedb_operator.Errors.{Err}
use serenedb_operator.Prelude.{◌∷◌, [], Bool, String, Option, none, some, List}
use serenedb_operator.Controller.Kube.{Kind, Object}

-- `certwatcher.CertWatcher`, by the files that it watches.
pub record CertWatcher : Type 0 where
  pub certificate : String
  pub key : String

-- `tls.Config`, as far as the program changes it.
pub record TlsConfig : Type 0 where
  pub next_protos : List String
  pub get_certificate : Option CertWatcher

-- `metricsserver.Options`
pub record MetricsOptions : Type 0 where
  pub bind_address : String
  pub secure_serving : Bool
  pub tls_opts : List (TlsConfig → TlsConfig)
  pub authenticates : Bool  -- FilterProvider is WithAuthenticationAndAuthorization

-- `ctrl.Options`, with the options of the webhook server that it holds.
pub record ManagerOptions : Type 0 where
  pub metrics : MetricsOptions
  pub webhook_tls_opts : List (TlsConfig → TlsConfig)
  pub health_probe_bind_address : String
  pub leader_election : Bool
  pub leader_election_id : String

-- `Watches(watched, requestsByIndex(client, list, index))`
pub record Watch : Type 0 where
  pub watched : Kind
  pub listed : Kind
  pub index : String

-- What a builder knows when `Complete` is called.
pub record Controller : Type 0 where
  pub for_kind : Kind
  pub owns : List Kind
  pub watches : List Watch
  pub name : String

-- An index function panics on an object of another kind: `none`.
abbrev pub Extract : Type 0
Extract = Object → Option (List String)

pub data Call : Type 0 where
  new_cert_watcher : CertWatcher → Call
  get_config : Call
  new_manager : ManagerOptions → Call
  index_field : Kind → String → Extract → Call
  rest_mapping : Kind → Call
  complete : Controller → Call
  add_cert_watcher : CertWatcher → Call
  add_healthz_check : String → Call
  add_readyz_check : String → Call
  start : Call

pub record Event : Type 0 where
  pub call : Call
  pub error : Option Err

-- The latest call comes first.
abbrev pub Trace : Type 0
Trace = List Event

abbrev pub Manager : Type 0
Manager = Trace → Call → Option Err

-- Calls in a row: the first error ends them.
abbrev pub Setup : Type 0
Setup = Trace → Option Err × Trace

abbrev pub nothing : Setup
nothing t = (none, t)

abbrev pub ask : Manager → Call → Setup
ask m c t = let e = m t c in (e, record { call = c; error = e } ∷ t)

abbrev pub go_on : Option Err → Setup → Setup
go_on none next t = next t
go_on (some e) next t = (some e, t)

infixr 30 ◌and_then◌
abbrev pub ◌and_then◌ : Setup → Setup → Setup
◌and_then◌ first next t = let (e, t1) = first t in go_on e next t1
