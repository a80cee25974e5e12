-- ===== src/Controller/Role.antt =====
-- internal/controller/databaserole_controller.go
pub mod Converge
pub mod Sessions
pub mod Laws
pub mod Memberships
use serenedb_operator.Prelude.{
  String, Bool, true, false, Option, none, some, List, [], ◌∷◌, not, ◌&&◌, ◌||◌, if◌then◌else◌,
  ◌==◌, ◌<>◌, get_or,
}
use serenedb_operator.Prelude.Dict.{lookup}
use serenedb_operator.Errors.{Result, ok, err, Blocked, wrapped, quoted, error_message}
use serenedb_operator.Statements.{RoleAttributes, role_exists, create_role, alter_role, drop_role}
use serenedb_operator.Api.Meta.{NamespacedName, reclaim_delete}
use serenedb_operator.Api.Core.{Secret}
use serenedb_operator.Api.Dependents.{DatabaseRole, DatabaseRoleSpec, PasswordSecretRef}
use serenedb_operator.Controller.Kube.{
  Env, Library, get_object, a_role, a_secret, role, patch_status,
}
use serenedb_operator.Controller.Op.{
  Op, Outcome, done, stopped, failed, panicked, pure, fail, stop, panic, lift, found_or, perform,
  ask, capture, CtrlResult, no_requeue, ignore_not_found, name_or_default, exec_sql, exists, ◌>>=◌,
  ◌>>◌,
}
use serenedb_operator.Controller.Session.{with_session, blocked, key_or}
use serenedb_operator.Controller.Finalize.{Finalized, finalize, ensure_finalizer}
use serenedb_operator.Prelude.{is_some}
use serenedb_operator.Controller.Outcome.{outcome}
use serenedb_operator.Controller.Database.{valid_or_stop, status_patched}
use Converge.{converge}

abbrev pub reason_password_secret_missing : String
reason_password_secret_missing = "PasswordSecretMissing"

unfoldable pub role_attributes : DatabaseRoleSpec → RoleAttributes
role_attributes spec = record {
  login = spec.login;
  superuser = spec.superuser;
  create_db = spec.create_db;
  create_role = spec.create_role;
  inherit = get_or true spec.inherit;
  connection_limit = spec.connection_limit;
  valid_until = spec.valid_until;
  password = none;
}

-- The password goes into the statement when the role is new or its Secret has changed.
unfoldable pub with_password :
    RoleAttributes → Option String → (present : Bool) → (version applied : String) → RoleAttributes
with_password attrs password present version applied =
    if is_some password && (not present || not (version == applied))
    then record attrs { password = password }
    else attrs

unfoldable pub role_statement : (String → String) → String → RoleAttributes → Bool → Result String
role_statement sanitize name attrs present =
    if present then alter_role sanitize name attrs else create_role sanitize name attrs

abbrev pub finalized_role : DatabaseRole → Finalized
finalized_role r = record { metadata = r.metadata; rebuild = λ m. role (record r { metadata = m }) }

module _ (env : Env) where
  -- The password of the role and the resourceVersion of its Secret.
  unfoldable pub password_of : String → Option PasswordSecretRef → Op (Option String × String)
  password_of namespace none = pure (none, "")
  password_of namespace (some ref) = do
    let key : NamespacedName = record { namespace = namespace; name = ref.name }
    got ← perform (get_object a_secret key) (λ h. env.get_secret h key)
    secret ←
        found_or
          (blocked reason_password_secret_missing ("secret " <> quoted ref.name <> " not found"))
          "get password secret" got
    let field = name_or_default ref.key "password"
    value ←
        key_or
          (blocked reason_password_secret_missing
            ("secret " <> quoted ref.name <> " has no key " <> quoted field))
          (lookup field secret.content)
    pure (some value, secret.metadata.resource_version)

  -- The part of `apply` on the open session.
  unfoldable pub apply_on_session : DatabaseRole → String → Option String × String → Op DatabaseRole
  apply_on_session r name (password, version) = do
    query ← valid_or_stop (role_exists name)
    present ← exists env query
    let attrs =
        with_password (role_attributes r.spec) password present version r.password_secret_version
    statement ← valid_or_stop (role_statement env.lib.sanitize name attrs present)
    exec_sql env statement
    converge env name r.spec.in_roles
    pure (record r { password_secret_version = version })

  -- The role with the version of the password Secret that was applied.
  unfoldable pub apply : DatabaseRole → String → Op DatabaseRole
  apply r name = do
    secret ← password_of r.metadata.namespace r.spec.password_secret
    with_session env r.metadata.namespace r.spec.cluster.name (apply_on_session r name secret)

  unfoldable pub drop_if_present : String → Bool → Op (Unit {0})
  drop_if_present name present =
      if present then exec_sql env (drop_role env.lib.sanitize name) else pure tt

  unfoldable pub drop_the_role : String → Op (Unit {0})
  drop_the_role name = do
    query ← lift (role_exists name)
    present ← exists env query
    drop_if_present name present

  abbrev pub wanted_drop : DatabaseRole → String → Option (Op (Unit {0}))
  wanted_drop r name =
      if r.spec.reclaim_policy == reclaim_delete then some (drop_the_role name) else none

  -- The object that `apply` leaves: the one it was given unless it came to its end.
  abbrev pub applied_role : DatabaseRole → Outcome DatabaseRole → DatabaseRole
  applied_role r (done r') = r'
  applied_role r _ = r

  unfoldable pub record_outcome : DatabaseRole → Outcome DatabaseRole → Op CtrlResult
  record_outcome r panicked = panic
  record_outcome r applied = do
    let (conditions, result) = outcome env.lib r.status.conditions r.metadata.generation applied
    let updated = record (applied_role r applied) {
      status = record { observed_generation = r.metadata.generation; conditions = conditions };
    }
    answer ← ask env (patch_status (role r) (role updated))
    status_patched result answer

  unfoldable pub apply_and_record : DatabaseRole → String → Bool → Op CtrlResult
  apply_and_record r name added =
      if added
      then pure no_requeue
      else do applied ← capture (apply r name); record_outcome r applied

  -- `Reconcile` behind the read of the object.
  unfoldable pub reconcile_object : DatabaseRole → Op CtrlResult
  reconcile_object r =
      let name = name_or_default r.spec.name r.metadata.name in
      if is_some r.metadata.deletion_timestamp
      then finalize env (finalized_role r) r.spec.cluster.name (wanted_drop r name)
      else do added ← ensure_finalizer env (finalized_role r); apply_and_record r name added

  abbrev pub after_get : Result DatabaseRole → Op CtrlResult
  after_get (ok r) = reconcile_object r
  after_get (err e) = ignore_not_found e

  unfoldable pub reconcile : NamespacedName → Op CtrlResult
  reconcile request = do
    got ← perform (get_object a_role request) (λ h. env.get_role h request)
    after_get got
