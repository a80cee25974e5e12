-- ===== src/Api/DeepCopy/Schedules.antt =====
-- api/v1alpha1/scheduledbackup_types.go: its kind and the list of it, as Go types over
-- memory, with their functions in zz_generated.deepcopy.go. A type of another package that the
-- generated code assigns has no references, and is plain.
pub mod Laws
use serenedb_operator.Api.DeepCopy.Dependents.{cluster_ref_shape}
use serenedb_operator.Api.DeepCopy.Copiers.{
  deep_copy_object, RuntimeObject, Copied, slice_into, assign, ApiType, struct_into, deep_copy,
  Imports, Copier,
}
use serenedb_operator.Api.DeepCopy.Memory.{
  Heap, slice, pointer, Val, struct_of, Shape, plain, mapping,
}
use serenedb_operator.Prelude.{List, String, refl}
use mathlib.Core.List.{[], ◌∷◌}

unfoldable pub scheduled_backup_spec_shape : Shape
scheduled_backup_spec_shape = struct_of (
    ("Cluster", cluster_ref_shape)
    ∷ ("Schedule", plain)
    ∷ ("Suspend", plain)
    ∷ ("Immediate", plain)
    ∷ ("Keep", pointer plain)
    ∷ ("Method", plain)
    ∷ ("VolumeSnapshotClassName", pointer plain)
    ∷ [])

unfoldable pub scheduled_backup_spec_deep_copy_into : Copier
scheduled_backup_spec_deep_copy_into = struct_into (
    ("Cluster", assign)
    ∷ ("Keep", deep_copy assign)
    ∷ ("VolumeSnapshotClassName", deep_copy assign)
    ∷ [])

unfoldable pub scheduled_backup_spec_deep_copy : Copier
scheduled_backup_spec_deep_copy = deep_copy scheduled_backup_spec_deep_copy_into

unfoldable pub scheduled_backup_status_shape : Imports → Shape
scheduled_backup_status_shape i = struct_of (
    ("LastScheduleTime", pointer (i.shape_of "metav1.Time"))
    ∷ ("NextScheduleTime", pointer (i.shape_of "metav1.Time"))
    ∷ ("LastBackup", plain)
    ∷ ("Conditions", slice (i.shape_of "metav1.Condition"))
    ∷ [])

unfoldable pub scheduled_backup_status_deep_copy_into : Imports → Copier
scheduled_backup_status_deep_copy_into i = struct_into (
    ("LastScheduleTime", deep_copy (i.into_of "metav1.Time"))
    ∷ ("NextScheduleTime", deep_copy (i.into_of "metav1.Time"))
    ∷ ("Conditions", slice_into (i.into_of "metav1.Condition"))
    ∷ [])

unfoldable pub scheduled_backup_status_deep_copy : Imports → Copier
scheduled_backup_status_deep_copy i = deep_copy (scheduled_backup_status_deep_copy_into i)

unfoldable pub scheduled_backup_shape : Imports → Shape
scheduled_backup_shape i = struct_of (
    ("TypeMeta", plain)
    ∷ ("ObjectMeta", i.shape_of "metav1.ObjectMeta")
    ∷ ("Spec", scheduled_backup_spec_shape)
    ∷ ("Status", scheduled_backup_status_shape i)
    ∷ [])

unfoldable pub scheduled_backup_deep_copy_into : Imports → Copier
scheduled_backup_deep_copy_into i = struct_into (
    ("TypeMeta", assign)
    ∷ ("ObjectMeta", i.into_of "metav1.ObjectMeta")
    ∷ ("Spec", scheduled_backup_spec_deep_copy_into)
    ∷ ("Status", scheduled_backup_status_deep_copy_into i)
    ∷ [])

unfoldable pub scheduled_backup_deep_copy : Imports → Copier
scheduled_backup_deep_copy i = deep_copy (scheduled_backup_deep_copy_into i)

unfoldable pub scheduled_backup_deep_copy_object : Imports → Val → Heap → Copied RuntimeObject
scheduled_backup_deep_copy_object i =
    deep_copy_object "ScheduledBackup" (scheduled_backup_deep_copy i)

unfoldable pub scheduled_backup_list_shape : Imports → Shape
scheduled_backup_list_shape i = struct_of (
    ("TypeMeta", plain)
    ∷ ("ListMeta", i.shape_of "metav1.ListMeta")
    ∷ ("Items", slice (scheduled_backup_shape i))
    ∷ [])

unfoldable pub scheduled_backup_list_deep_copy_into : Imports → Copier
scheduled_backup_list_deep_copy_into i = struct_into (
    ("TypeMeta", assign)
    ∷ ("ListMeta", i.into_of "metav1.ListMeta")
    ∷ ("Items", slice_into (scheduled_backup_deep_copy_into i))
    ∷ [])

unfoldable pub scheduled_backup_list_deep_copy : Imports → Copier
scheduled_backup_list_deep_copy i = deep_copy (scheduled_backup_list_deep_copy_into i)

unfoldable pub scheduled_backup_list_deep_copy_object : Imports → Val → Heap → Copied RuntimeObject
scheduled_backup_list_deep_copy_object i =
    deep_copy_object "ScheduledBackupList" (scheduled_backup_list_deep_copy i)

-- `SchemeBuilder.Register`, in the file's init.
unfoldable pub registered_schedules : Imports → List ApiType
registered_schedules i =
    record {
      kind = "ScheduledBackup";
      shape = scheduled_backup_shape i;
      deep_copy = scheduled_backup_deep_copy i;
      deep_copy_object = scheduled_backup_deep_copy_object i;
    }
    ∷ record {
      kind = "ScheduledBackupList";
      shape = scheduled_backup_list_shape i;
      deep_copy = scheduled_backup_list_deep_copy i;
      deep_copy_object = scheduled_backup_list_deep_copy_object i;
    }
    ∷ []
