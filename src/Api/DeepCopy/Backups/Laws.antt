-- ===== src/Api/DeepCopy/Backups/Laws.antt =====
-- The generated copies of backup_types.go are deep, field by field.
use serenedb_operator.Api.DeepCopy.Objects.{api_type-IsCopied, IsCopied, CopiesDeeply}
use serenedb_operator.Api.DeepCopy.Deep.{slice_into-IsDeep, deep_copy-IsDeep, IsDeep}
use serenedb_operator.Api.DeepCopy.Dependents.{cluster_ref_shape}
use serenedb_operator.Api.DeepCopy.Copiers.{assign, Imports, copier}
use serenedb_operator.Api.DeepCopy.Backups.{
  backup_list_deep_copy_object, backup_list_deep_copy, backup_deep_copy_object, backup_deep_copy,
  registered_backups, backup_status_deep_copy_into, backup_spec_deep_copy_into,
  backup_list_deep_copy_into, backup_deep_copy_into, backup_status_shape, backup_spec_shape,
  backup_shape, backup_list_shape,
}
use serenedb_operator.Api.DeepCopy.Memory.{plain}
use serenedb_operator.Api.DeepCopy.Structs.{assign-IsDeep, struct_into-IsDeep, flat, ◌and◌}
use serenedb_operator.Prelude.{All, refl}

pub backup_spec_deep_copy_into-IsDeep : IsDeep backup_spec_shape backup_spec_deep_copy_into
unfolding backup_spec_shape backup_spec_deep_copy_into copier cluster_ref_shape flat
backup_spec_deep_copy_into-IsDeep = struct_into-IsDeep _ _ (
    assign-IsDeep cluster_ref_shape refl
    and assign-IsDeep plain refl
    and deep_copy-IsDeep plain assign (assign-IsDeep plain refl)
    and tt)

pub backup_status_deep_copy_into-IsDeep :
    (i : Imports) → CopiesDeeply i → IsDeep (backup_status_shape i) (backup_status_deep_copy_into i)
unfolding backup_status_shape backup_status_deep_copy_into copier flat
backup_status_deep_copy_into-IsDeep i d = struct_into-IsDeep _ _ (
    assign-IsDeep plain refl
    and deep_copy-IsDeep (i.shape_of "metav1.Time") (i.into_of "metav1.Time") (d "metav1.Time")
    and deep_copy-IsDeep (i.shape_of "metav1.Time") (i.into_of "metav1.Time") (d "metav1.Time")
    and assign-IsDeep plain refl
    and assign-IsDeep plain refl
    and tt)

pub backup_deep_copy_into-IsDeep :
    (i : Imports) → CopiesDeeply i → IsDeep (backup_shape i) (backup_deep_copy_into i)
unfolding backup_shape backup_deep_copy_into copier flat
backup_deep_copy_into-IsDeep i d = struct_into-IsDeep _ _ (
    assign-IsDeep plain refl
    and d "metav1.ObjectMeta"
    and backup_spec_deep_copy_into-IsDeep
    and backup_status_deep_copy_into-IsDeep i d
    and tt)

pub backup_list_deep_copy_into-IsDeep :
    (i : Imports) → CopiesDeeply i → IsDeep (backup_list_shape i) (backup_list_deep_copy_into i)
unfolding backup_list_shape backup_list_deep_copy_into copier flat
backup_list_deep_copy_into-IsDeep i d = struct_into-IsDeep _ _ (
    assign-IsDeep plain refl
    and d "metav1.ListMeta"
    and slice_into-IsDeep (backup_shape i) (backup_deep_copy_into i)
        (backup_deep_copy_into-IsDeep i d)
    and tt)

pub registered_backups-IsCopied :
    (i : Imports) → CopiesDeeply i → All IsCopied (registered_backups i)
unfolding registered_backups backup_deep_copy backup_deep_copy_object backup_list_deep_copy
    backup_list_deep_copy_object
registered_backups-IsCopied i d =
    api_type-IsCopied "Backup" (backup_shape i) (backup_deep_copy_into i)
      (backup_deep_copy_into-IsDeep i d)
    and api_type-IsCopied "BackupList" (backup_list_shape i) (backup_list_deep_copy_into i)
        (backup_list_deep_copy_into-IsDeep i d)
    and tt
