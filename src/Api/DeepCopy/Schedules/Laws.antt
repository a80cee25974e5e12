-- ===== src/Api/DeepCopy/Schedules/Laws.antt =====
-- The generated copies of scheduledbackup_types.go are deep, field by field.
use serenedb_operator.Api.DeepCopy.Objects.{api_type-IsCopied, IsCopied, CopiesDeeply}
use serenedb_operator.Api.DeepCopy.Deep.{slice_into-IsDeep, deep_copy-IsDeep, IsDeep}
use serenedb_operator.Api.DeepCopy.Dependents.{cluster_ref_shape}
use serenedb_operator.Api.DeepCopy.Copiers.{assign, Imports, copier}
use serenedb_operator.Api.DeepCopy.Schedules.{
  scheduled_backup_list_deep_copy_object, scheduled_backup_list_deep_copy,
  scheduled_backup_deep_copy_object, scheduled_backup_deep_copy, registered_schedules,
  scheduled_backup_status_deep_copy_into, scheduled_backup_spec_deep_copy_into,
  scheduled_backup_list_deep_copy_into, scheduled_backup_deep_copy_into,
  scheduled_backup_status_shape, scheduled_backup_spec_shape, scheduled_backup_shape,
  scheduled_backup_list_shape,
}
use serenedb_operator.Api.DeepCopy.Memory.{plain}
use serenedb_operator.Api.DeepCopy.Structs.{assign-IsDeep, struct_into-IsDeep, flat, ◌and◌}
use serenedb_operator.Prelude.{All, refl}

pub scheduled_backup_spec_deep_copy_into-IsDeep :
    IsDeep scheduled_backup_spec_shape scheduled_backup_spec_deep_copy_into
unfolding scheduled_backup_spec_shape scheduled_backup_spec_deep_copy_into copier cluster_ref_shape
    flat
scheduled_backup_spec_deep_copy_into-IsDeep = struct_into-IsDeep _ _ (
    assign-IsDeep cluster_ref_shape refl
    and assign-IsDeep plain refl
    and assign-IsDeep plain refl
    and assign-IsDeep plain refl
    and deep_copy-IsDeep plain assign (assign-IsDeep plain refl)
    and assign-IsDeep plain refl
    and deep_copy-IsDeep plain assign (assign-IsDeep plain refl)
    and tt)

pub scheduled_backup_status_deep_copy_into-IsDeep :
    (i : Imports)
    → CopiesDeeply i
    → IsDeep (scheduled_backup_status_shape i) (scheduled_backup_status_deep_copy_into i)
unfolding scheduled_backup_status_shape scheduled_backup_status_deep_copy_into copier flat
scheduled_backup_status_deep_copy_into-IsDeep i d = struct_into-IsDeep _ _ (
    deep_copy-IsDeep (i.shape_of "metav1.Time") (i.into_of "metav1.Time") (d "metav1.Time")
    and deep_copy-IsDeep (i.shape_of "metav1.Time") (i.into_of "metav1.Time") (d "metav1.Time")
    and assign-IsDeep plain refl
    and slice_into-IsDeep (i.shape_of "metav1.Condition") (i.into_of "metav1.Condition")
        (d "metav1.Condition")
    and tt)

pub scheduled_backup_deep_copy_into-IsDeep :
    (i : Imports)
    → CopiesDeeply i
    → IsDeep (scheduled_backup_shape i) (scheduled_backup_deep_copy_into i)
unfolding scheduled_backup_shape scheduled_backup_deep_copy_into copier flat
scheduled_backup_deep_copy_into-IsDeep i d = struct_into-IsDeep _ _ (
    assign-IsDeep plain refl
    and d "metav1.ObjectMeta"
    and scheduled_backup_spec_deep_copy_into-IsDeep
    and scheduled_backup_status_deep_copy_into-IsDeep i d
    and tt)

pub scheduled_backup_list_deep_copy_into-IsDeep :
    (i : Imports)
    → CopiesDeeply i
    → IsDeep (scheduled_backup_list_shape i) (scheduled_backup_list_deep_copy_into i)
unfolding scheduled_backup_list_shape scheduled_backup_list_deep_copy_into copier flat
scheduled_backup_list_deep_copy_into-IsDeep i d = struct_into-IsDeep _ _ (
    assign-IsDeep plain refl
    and d "metav1.ListMeta"
    and slice_into-IsDeep (scheduled_backup_shape i) (scheduled_backup_deep_copy_into i)
        (scheduled_backup_deep_copy_into-IsDeep i d)
    and tt)

pub registered_schedules-IsCopied :
    (i : Imports) → CopiesDeeply i → All IsCopied (registered_schedules i)
unfolding registered_schedules scheduled_backup_deep_copy scheduled_backup_deep_copy_object
    scheduled_backup_list_deep_copy scheduled_backup_list_deep_copy_object
registered_schedules-IsCopied i d =
    api_type-IsCopied "ScheduledBackup" (scheduled_backup_shape i)
      (scheduled_backup_deep_copy_into i) (scheduled_backup_deep_copy_into-IsDeep i d)
    and api_type-IsCopied "ScheduledBackupList" (scheduled_backup_list_shape i)
        (scheduled_backup_list_deep_copy_into i) (scheduled_backup_list_deep_copy_into-IsDeep i d)
    and tt
