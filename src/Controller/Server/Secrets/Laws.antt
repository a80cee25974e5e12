-- ===== src/Controller/Server/Secrets/Laws.antt =====
-- The password Secret outlives every reconcile (internal/controller/serenedb_controller.go).
use serenedb_operator.Prelude.{◌≡◌, ◌⊎◌, inl, inr, Option, arith, ◌∷◌, Bool-cases, Option-cases}
use mathlib.Core.Path.{subst}
use serenedb_operator.Prelude.Dict.{lookup}
use serenedb_operator.Errors.{ok, Err, Result-cases}
use serenedb_operator.Api.Meta.{ObjectMeta}
use serenedb_operator.Api.Core.{Secret}
use serenedb_operator.Api.SereneDb.{SereneDb}
use serenedb_operator.Resources.Names.{password_key}
use serenedb_operator.Resources.Secret.{secret_owned_by_database}
use serenedb_operator.Controller.Kube.{Env, History, patch, secret}
use serenedb_operator.Controller.Op.{error_of, as_result}
use serenedb_operator.Controller.Server.Secrets.{
  generated_found, check_key, sync_secret_ownership, same_flag,
}

module _ (env : Env) where
  -- The history behind a look at a Secret is as it was, or has one patch that changes metadata only.
  abbrev pub KeepsSecret : Secret → (h h' : History) → Type 0
  KeepsSecret s h h' =
      (h' ≡ h)
      ⊎ ((m : ObjectMeta) × (failure : Option Err) × (h'
            ≡ record {
              call = patch (secret s) (secret (record s { metadata = m }));
              error = failure;
            }
              ∷ h))

  -- The answer to the patch.
  abbrev failure_of : Secret → ObjectMeta → History → Option Err
  failure_of s m h =
      error_of (as_result (env.answer h (patch (secret s) (secret (record s { metadata = m })))))

  sync_secret_ownership_keeps :
      (db : SereneDb) (s : Secret) (h : History)
      → KeepsSecret s h (sync_secret_ownership env db s h).1
  unfolding sync_secret_ownership
  sync_secret_ownership_keeps db s h =
      let owned = secret_owned_by_database db in
      elim (Bool-cases (same_flag owned (env.lib.is_controlled_by s.metadata db.metadata))) [
        | inl t ↦ inl (ground arith)
        | inr t ↦ elim (Bool-cases owned) [
          | inl o ↦ elim (Result-cases (env.lib.set_controller_reference db.metadata s.metadata)) [
            | inl (m, q) ↦ inr (m, failure_of s m h, ground arith)
            | inr (x, q) ↦ inl (ground arith)
          ]
          | inr o ↦
              elim (Result-cases (env.lib.remove_controller_reference db.metadata s.metadata)) [
                | inl (m, q) ↦ inr (m, failure_of s m h, ground arith)
                | inr (x, q) ↦ inl (ground arith)
              ]
        ]
      ]

  -- A reconcile that finds the generated Secret makes no call, or one patch of it that leaves all
  -- but its metadata as it was.
  pub generated_found_keeps :
      (db : SereneDb) (s : Secret) (h : History)
      → KeepsSecret s h (generated_found env db (ok s) h).1
  unfolding check_key
  generated_found_keeps db s h = elim (Option-cases (lookup (password_key db) s.content)) [
    | inl q ↦ inl (ground arith)
    | inr (v, q) ↦
        let same : (sync_secret_ownership env db s h).1 ≡ (generated_found env db (ok s) h).1 =
          ground arith in
        subst (KeepsSecret s h) same (sync_secret_ownership_keeps db s h)
  ]
