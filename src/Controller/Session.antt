-- ===== src/Controller/Session.antt =====
-- internal/controller/dependent.go: the SQL session on a SereneDB that is ready.
pub mod Laws
pub mod Balance
use serenedb_operator.Prelude.{ℕ, String, Bool, Option, none, some, ◌<>◌, if◌then◌else◌}
use serenedb_operator.Prelude.Dict.{lookup}
use serenedb_operator.Errors.{Result, ok, err, Blocked, error_message, quoted}
use serenedb_operator.SqlExec.{Target}
use serenedb_operator.Api.Meta.{NamespacedName, condition_ready}
use serenedb_operator.Api.Core.{Secret}
use serenedb_operator.Api.SereneDb.{SereneDb}
use serenedb_operator.Resources.Names.{host, postgres_port, secret_name, password_key}
use serenedb_operator.Controller.Kube.{Env, Library, get_object, a_serenedb, a_secret, connect}
use serenedb_operator.Controller.Op.{Op, pure, stop, found_or, perform, ask, closing, ◌>>=◌, ◌>>◌}

abbrev pub reason_cluster_not_found : String
reason_cluster_not_found = "ClusterNotFound"

abbrev pub reason_cluster_not_ready : String
reason_cluster_not_ready = "ClusterNotReady"

abbrev pub reason_connection_failed : String
reason_connection_failed = "ConnectionFailed"

abbrev pub reason_secret_missing : String
reason_secret_missing = "SecretMissing"

abbrev pub reason_secret_key_missing : String
reason_secret_key_missing = "SecretKeyMissing"

abbrev pub blocked : String → String → Blocked
blocked r m = record { reason = r; message = m }

-- `value, ok := secret.Data[key]`
abbrev pub key_or : Blocked → Option String → Op String
key_or b none = stop b
key_or b (some v) = pure v

-- `if err != nil { return &blocked{reasonConnectionFailed, err.Error()} }`
abbrev pub connected : Result (Unit {0}) → Op (Unit {0})
connected (ok u) = pure u
connected (err e) = stop (blocked reason_connection_failed (error_message e))

abbrev pub target_of : SereneDb → String → Target
target_of db pw = record {
  host = host db;
  port = postgres_port db;
  user = "postgres";
  password = pw;
  tls = db.spec.tls.enabled;
}

module _ (env : Env) where
  unfoldable pub superuser_password : SereneDb → Op String
  superuser_password db = do
    let key : NamespacedName = record { namespace = db.metadata.namespace; name = secret_name db }
    got ← perform (get_object a_secret key) (λ h. env.get_secret h key)
    secret ←
        found_or
          (blocked reason_secret_missing
            ("superuser secret " <> quoted (secret_name db) <> " not found"))
          "get superuser secret" got
    key_or
        (blocked reason_secret_key_missing (
          "superuser secret "
          <> quoted secret.metadata.name
          <> " has no key "
          <> quoted (password_key db)))
        (lookup (password_key db) secret.content)

  -- Connects to the named SereneDB as the superuser.
  unfoldable pub open_session : (namespace cluster : String) → Op (Unit {0})
  open_session namespace cluster = do
    let key : NamespacedName = record { namespace = namespace; name = cluster }
    got ← perform (get_object a_serenedb key) (λ h. env.get_serenedb h key)
    db ←
        found_or (blocked reason_cluster_not_found ("serenedb " <> quoted cluster <> " not found"))
          "get serenedb" got
    if env.lib.is_status_condition_true db.status.conditions condition_ready
        then pure tt
        else stop
            (blocked reason_cluster_not_ready ("serenedb " <> quoted cluster <> " is not ready"))
    password ← superuser_password db
    answer ← ask env (connect (target_of db password))
    connected answer

  -- The body runs on an open session, which is closed behind it.
  abbrev pub with_session : {A : Type 0} → (namespace cluster : String) → Op A → Op A
  with_session namespace cluster body = do open_session namespace cluster; closing body
