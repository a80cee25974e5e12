-- ===== src/Api/DeepCopy/Databases/Laws.antt =====
-- The generated copies of database_types.go are deep, field by field.
use serenedb_operator.Api.DeepCopy.Objects.{api_type-IsCopied, IsCopied, CopiesDeeply}
use serenedb_operator.Api.DeepCopy.Dependents.Laws.{dependent_status_deep_copy_into-IsDeep}
use serenedb_operator.Api.DeepCopy.Deep.{slice_into-IsDeep, IsDeep}
use serenedb_operator.Api.DeepCopy.Dependents.{cluster_ref_shape}
use serenedb_operator.Api.DeepCopy.Copiers.{Imports, copier}
use serenedb_operator.Api.DeepCopy.Databases.{
  database_list_deep_copy_object, database_list_deep_copy, database_deep_copy_object,
  database_deep_copy, registered_databases, database_status_deep_copy_into,
  database_spec_deep_copy_into, database_list_deep_copy_into, database_deep_copy_into,
  database_status_shape, database_spec_shape, database_shape, database_list_shape,
}
use serenedb_operator.Api.DeepCopy.Memory.{plain}
use serenedb_operator.Api.DeepCopy.Structs.{assign-IsDeep, struct_into-IsDeep, flat, ◌and◌}
use serenedb_operator.Prelude.{All, refl}

pub database_spec_deep_copy_into-IsDeep : IsDeep database_spec_shape database_spec_deep_copy_into
unfolding database_spec_shape database_spec_deep_copy_into copier cluster_ref_shape flat
database_spec_deep_copy_into-IsDeep = struct_into-IsDeep _ _ (
    assign-IsDeep cluster_ref_shape refl
    and assign-IsDeep plain refl
    and assign-IsDeep plain refl
    and tt)

pub database_status_deep_copy_into-IsDeep :
    (i : Imports)
    → CopiesDeeply i
    → IsDeep (database_status_shape i) (database_status_deep_copy_into i)
unfolding database_status_shape database_status_deep_copy_into copier flat
database_status_deep_copy_into-IsDeep i d =
    struct_into-IsDeep _ _ (dependent_status_deep_copy_into-IsDeep i d and tt)

pub database_deep_copy_into-IsDeep :
    (i : Imports) → CopiesDeeply i → IsDeep (database_shape i) (database_deep_copy_into i)
unfolding database_shape database_deep_copy_into copier cluster_ref_shape database_spec_shape flat
database_deep_copy_into-IsDeep i d = struct_into-IsDeep _ _ (
    assign-IsDeep plain refl
    and d "metav1.ObjectMeta"
    and assign-IsDeep database_spec_shape refl
    and database_status_deep_copy_into-IsDeep i d
    and tt)

pub database_list_deep_copy_into-IsDeep :
    (i : Imports) → CopiesDeeply i → IsDeep (database_list_shape i) (database_list_deep_copy_into i)
unfolding database_list_shape database_list_deep_copy_into copier flat
database_list_deep_copy_into-IsDeep i d = struct_into-IsDeep _ _ (
    assign-IsDeep plain refl
    and d "metav1.ListMeta"
    and slice_into-IsDeep (database_shape i) (database_deep_copy_into i)
        (database_deep_copy_into-IsDeep i d)
    and tt)

pub registered_databases-IsCopied :
    (i : Imports) → CopiesDeeply i → All IsCopied (registered_databases i)
unfolding registered_databases database_deep_copy database_deep_copy_object database_list_deep_copy
    database_list_deep_copy_object
registered_databases-IsCopied i d =
    api_type-IsCopied "Database" (database_shape i) (database_deep_copy_into i)
      (database_deep_copy_into-IsDeep i d)
    and api_type-IsCopied "DatabaseList" (database_list_shape i) (database_list_deep_copy_into i)
        (database_list_deep_copy_into-IsDeep i d)
    and tt
