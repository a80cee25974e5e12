-- ===== src/Api/DeepCopy/Roles/Laws.antt =====
-- The generated copies of databaserole_types.go are deep, field by field.
use serenedb_operator.Api.DeepCopy.Objects.{api_type-IsCopied, IsCopied, CopiesDeeply}
use serenedb_operator.Api.DeepCopy.Dependents.Laws.{dependent_status_deep_copy_into-IsDeep}
use serenedb_operator.Api.DeepCopy.Dependents.{cluster_ref_shape}
use serenedb_operator.Api.DeepCopy.Deep.{slice_into-IsDeep, deep_copy-IsDeep, IsDeep}
use serenedb_operator.Api.DeepCopy.Copiers.{assign, Imports, copier}
use serenedb_operator.Api.DeepCopy.Roles.{
  database_role_list_deep_copy_object, database_role_list_deep_copy, database_role_deep_copy_object,
  database_role_deep_copy, registered_roles, password_secret_ref_deep_copy_into,
  database_role_status_deep_copy_into, database_role_spec_deep_copy_into,
  database_role_list_deep_copy_into, database_role_deep_copy_into, password_secret_ref_shape,
  database_role_status_shape, database_role_spec_shape, database_role_shape,
  database_role_list_shape,
}
use serenedb_operator.Api.DeepCopy.Memory.{plain}
use serenedb_operator.Api.DeepCopy.Structs.{struct_into-IsDeep, assign-IsDeep, flat, ◌and◌}
use serenedb_operator.Prelude.{All, refl}

pub password_secret_ref_deep_copy_into-IsDeep :
    IsDeep password_secret_ref_shape password_secret_ref_deep_copy_into
unfolding password_secret_ref_shape password_secret_ref_deep_copy_into flat
password_secret_ref_deep_copy_into-IsDeep = assign-IsDeep password_secret_ref_shape refl

pub database_role_spec_deep_copy_into-IsDeep :
    IsDeep database_role_spec_shape database_role_spec_deep_copy_into
unfolding database_role_spec_shape database_role_spec_deep_copy_into copier cluster_ref_shape
    password_secret_ref_shape flat
database_role_spec_deep_copy_into-IsDeep = struct_into-IsDeep _ _ (
    assign-IsDeep cluster_ref_shape refl
    and assign-IsDeep plain refl
    and assign-IsDeep plain refl
    and assign-IsDeep plain refl
    and assign-IsDeep plain refl
    and assign-IsDeep plain refl
    and deep_copy-IsDeep plain assign (assign-IsDeep plain refl)
    and deep_copy-IsDeep plain assign (assign-IsDeep plain refl)
    and assign-IsDeep plain refl
    and deep_copy-IsDeep password_secret_ref_shape assign
        (assign-IsDeep password_secret_ref_shape refl)
    and slice_into-IsDeep plain assign (assign-IsDeep plain refl)
    and assign-IsDeep plain refl
    and tt)

pub database_role_status_deep_copy_into-IsDeep :
    (i : Imports)
    → CopiesDeeply i
    → IsDeep (database_role_status_shape i) (database_role_status_deep_copy_into i)
unfolding database_role_status_shape database_role_status_deep_copy_into copier flat
database_role_status_deep_copy_into-IsDeep i d =
    struct_into-IsDeep _ _
      (dependent_status_deep_copy_into-IsDeep i d and assign-IsDeep plain refl and tt)

pub database_role_deep_copy_into-IsDeep :
    (i : Imports) → CopiesDeeply i → IsDeep (database_role_shape i) (database_role_deep_copy_into i)
unfolding database_role_shape database_role_deep_copy_into copier flat
database_role_deep_copy_into-IsDeep i d = struct_into-IsDeep _ _ (
    assign-IsDeep plain refl
    and d "metav1.ObjectMeta"
    and database_role_spec_deep_copy_into-IsDeep
    and database_role_status_deep_copy_into-IsDeep i d
    and tt)

pub database_role_list_deep_copy_into-IsDeep :
    (i : Imports)
    → CopiesDeeply i
    → IsDeep (database_role_list_shape i) (database_role_list_deep_copy_into i)
unfolding database_role_list_shape database_role_list_deep_copy_into copier flat
database_role_list_deep_copy_into-IsDeep i d = struct_into-IsDeep _ _ (
    assign-IsDeep plain refl
    and d "metav1.ListMeta"
    and slice_into-IsDeep (database_role_shape i) (database_role_deep_copy_into i)
        (database_role_deep_copy_into-IsDeep i d)
    and tt)

pub registered_roles-IsCopied : (i : Imports) → CopiesDeeply i → All IsCopied (registered_roles i)
unfolding registered_roles database_role_deep_copy database_role_deep_copy_object
    database_role_list_deep_copy database_role_list_deep_copy_object
registered_roles-IsCopied i d =
    api_type-IsCopied "DatabaseRole" (database_role_shape i) (database_role_deep_copy_into i)
      (database_role_deep_copy_into-IsDeep i d)
    and api_type-IsCopied "DatabaseRoleList" (database_role_list_shape i)
        (database_role_list_deep_copy_into i) (database_role_list_deep_copy_into-IsDeep i d)
    and tt
