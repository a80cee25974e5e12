-- ===== src/Controller/Server/Secrets.antt =====
-- The password Secret in internal/controller/serenedb_controller.go.
pub mod Laws
use serenedb_operator.Prelude.{
  Option, String, Bool, true, false, none, some, not, ◌==◌, if◌then◌else◌, ◌<>◌,
}
use serenedb_operator.Prelude.Dict.{lookup}
use serenedb_operator.Errors.{
  Result, ok, err, wrapped, precondition, is_not_found, is_already_exists, quoted,
}
use serenedb_operator.Api.Meta.{NamespacedName, ObjectMeta}
use serenedb_operator.Api.Core.{Secret}
use serenedb_operator.Api.SereneDb.{SereneDb}
use serenedb_operator.Resources.Names.{name, password_key}
use serenedb_operator.Resources.Secret.{generated_secret, secret_owned_by_database}
use serenedb_operator.Controller.Kube.{Env, get_object, a_secret, create, patch, secret}
use serenedb_operator.Controller.Op.{panic, Op, pure, fail, perform, ask, ◌>>=◌, ◌>>◌}
use serenedb_operator.Controller.Session.{blocked, reason_secret_missing, reason_secret_key_missing}

abbrev same_flag : Bool → Bool → Bool
same_flag true b = b
same_flag false b = not b

abbrev or_panic : {A : Type 0} → Option A → Op A
or_panic none = panic
or_panic (some a) = pure a

-- A step that wraps its error.
abbrev wrapped_or : {A : Type 0} → String → Result A → Op A
wrapped_or s (ok a) = pure a
wrapped_or s (err e) = fail (wrapped s e)

module _ (env : Env) where
  -- `if err := r.Create(…); err != nil && !apierrors.IsAlreadyExists(err)`
  abbrev secret_created : Result (Unit {0}) → Op (Unit {0})
  secret_created (ok u) = pure tt
  secret_created (err e) = if is_already_exists e then pure tt else fail (wrapped "create secret" e)

  -- The generated Secret with its owner.
  abbrev owned_secret : SereneDb → Secret → Op Secret
  owned_secret db s =
      if secret_owned_by_database db
      then (do
        m ← wrapped_or "set secret owner" (env.lib.set_controller_reference db.metadata s.metadata)
        pure (record s { metadata = m }))
      else pure s

  unfoldable pub create_generated_secret : SereneDb → Op (Unit {0})
  create_generated_secret db = do
    generated ← λ h. or_panic (generated_secret (env.rand h) db) h
    s ← wrapped_or "generate password" generated
    s' ← owned_secret db s
    answer ← ask env (create (secret s'))
    secret_created answer

  -- The metadata that ownership asks for.
  abbrev reowned : SereneDb → Secret → Op ObjectMeta
  reowned db s =
      if secret_owned_by_database db
      then wrapped_or "set secret owner" (env.lib.set_controller_reference db.metadata s.metadata)
      else wrapped_or "remove secret owner"
          (env.lib.remove_controller_reference db.metadata s.metadata)

  unfoldable pub sync_secret_ownership : SereneDb → Secret → Op (Unit {0})
  sync_secret_ownership db s =
      if same_flag (secret_owned_by_database db) (env.lib.is_controlled_by s.metadata db.metadata)
      then pure tt
      else do
        m ← reowned db s
        answer ← ask env (patch (secret s) (secret (record s { metadata = m })))
        wrapped_or "patch secret owner" answer

  -- The Secret must have the password key.
  unfoldable pub check_key : String → SereneDb → Secret → Op (Unit {0})
  check_key shown db s = elim (lookup (password_key db) s.content) [
    | some v ↦ pure tt
    | none ↦ fail (
        precondition (
          blocked reason_secret_key_missing
            ("secret " <> quoted shown <> " has no key " <> quoted (password_key db))))
  ]

  abbrev existing_found : SereneDb → Result Secret → Op (Unit {0})
  existing_found db (ok s) = check_key db.spec.auth.existing_secret db s
  existing_found db (err e) =
      if is_not_found e
      then fail (
          precondition (
            blocked reason_secret_missing
              ("secret " <> quoted db.spec.auth.existing_secret <> " not found")))
      else fail (wrapped "get existing secret" e)

  unfoldable pub check_existing_secret : SereneDb → Op (Unit {0})
  check_existing_secret db = do
    let key : NamespacedName = record {
      namespace = db.metadata.namespace;
      name = db.spec.auth.existing_secret;
    }
    got ← perform (get_object a_secret key) (λ h. env.get_secret h key)
    existing_found db got

  abbrev pub generated_found : SereneDb → Result Secret → Op (Unit {0})
  generated_found db (ok s) = do check_key s.metadata.name db s; sync_secret_ownership db s
  generated_found db (err e) =
      if is_not_found e then create_generated_secret db else fail (wrapped "get secret" e)

  unfoldable pub reconcile_secret : SereneDb → Op (Unit {0})
  reconcile_secret db =
      if not (db.spec.auth.existing_secret == "") then check_existing_secret db else do
        let key : NamespacedName = record { namespace = db.metadata.namespace; name = name db }
        got ← perform (get_object a_secret key) (λ h. env.get_secret h key)
        generated_found db got
