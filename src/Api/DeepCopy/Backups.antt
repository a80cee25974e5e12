-- ===== src/Api/DeepCopy/Backups.antt =====
-- api/v1alpha1/backup_types.go: its kind and the list of it, as Go types over
-- memory, with their functions in zz_generated.deepcopy.go. A type of another package that the
-- generated code assigns has no references, and is plain.
pub mod Laws
use serenedb_operator.Api.DeepCopy.Dependents.{cluster_ref_shape}
use serenedb_operator.Api.DeepCopy.Copiers.{
  deep_copy_object, RuntimeObject, slice_into, Copied, assign, ApiType, struct_into, deep_copy,
  Imports, Copier,
}
use serenedb_operator.Api.DeepCopy.Memory.{
  Heap, slice, pointer, Val, struct_of, Shape, plain, mapping,
}
use serenedb_operator.Prelude.{List, String, refl}
use mathlib.Core.List.{[], ◌∷◌}

unfoldable pub backup_spec_shape : Shape
backup_spec_shape = struct_of (
    ("Cluster", cluster_ref_shape)
    ∷ ("Method", plain)
    ∷ ("VolumeSnapshotClassName", pointer plain)
    ∷ [])

unfoldable pub backup_spec_deep_copy_into : Copier
backup_spec_deep_copy_into =
    struct_into (("Cluster", assign) ∷ ("VolumeSnapshotClassName", deep_copy assign) ∷ [])

unfoldable pub backup_spec_deep_copy : Copier
backup_spec_deep_copy = deep_copy backup_spec_deep_copy_into

unfoldable pub backup_status_shape : Imports → Shape
backup_status_shape i = struct_of (
    ("Phase", plain)
    ∷ ("StartedAt", pointer (i.shape_of "metav1.Time"))
    ∷ ("CompletedAt", pointer (i.shape_of "metav1.Time"))
    ∷ ("SnapshotName", plain)
    ∷ ("Error", plain)
    ∷ [])

unfoldable pub backup_status_deep_copy_into : Imports → Copier
backup_status_deep_copy_into i = struct_into (
    ("StartedAt", deep_copy (i.into_of "metav1.Time"))
    ∷ ("CompletedAt", deep_copy (i.into_of "metav1.Time"))
    ∷ [])

unfoldable pub backup_status_deep_copy : Imports → Copier
backup_status_deep_copy i = deep_copy (backup_status_deep_copy_into i)

unfoldable pub backup_shape : Imports → Shape
backup_shape i = struct_of (
    ("TypeMeta", plain)
    ∷ ("ObjectMeta", i.shape_of "metav1.ObjectMeta")
    ∷ ("Spec", backup_spec_shape)
    ∷ ("Status", backup_status_shape i)
    ∷ [])

unfoldable pub backup_deep_copy_into : Imports → Copier
backup_deep_copy_into i = struct_into (
    ("TypeMeta", assign)
    ∷ ("ObjectMeta", i.into_of "metav1.ObjectMeta")
    ∷ ("Spec", backup_spec_deep_copy_into)
    ∷ ("Status", backup_status_deep_copy_into i)
    ∷ [])

unfoldable pub backup_deep_copy : Imports → Copier
backup_deep_copy i = deep_copy (backup_deep_copy_into i)

unfoldable pub backup_deep_copy_object : Imports → Val → Heap → Copied RuntimeObject
backup_deep_copy_object i = deep_copy_object "Backup" (backup_deep_copy i)

unfoldable pub backup_list_shape : Imports → Shape
backup_list_shape i = struct_of (
    ("TypeMeta", plain)
    ∷ ("ListMeta", i.shape_of "metav1.ListMeta")
    ∷ ("Items", slice (backup_shape i))
    ∷ [])

unfoldable pub backup_list_deep_copy_into : Imports → Copier
backup_list_deep_copy_into i = struct_into (
    ("TypeMeta", assign)
    ∷ ("ListMeta", i.into_of "metav1.ListMeta")
    ∷ ("Items", slice_into (backup_deep_copy_into i))
    ∷ [])

unfoldable pub backup_list_deep_copy : Imports → Copier
backup_list_deep_copy i = deep_copy (backup_list_deep_copy_into i)

unfoldable pub backup_list_deep_copy_object : Imports → Val → Heap → Copied RuntimeObject
backup_list_deep_copy_object i = deep_copy_object "BackupList" (backup_list_deep_copy i)

-- `SchemeBuilder.Register`, in the file's init.
unfoldable pub registered_backups : Imports → List ApiType
registered_backups i =
    record {
      kind = "Backup";
      shape = backup_shape i;
      deep_copy = backup_deep_copy i;
      deep_copy_object = backup_deep_copy_object i;
    }
    ∷ record {
      kind = "BackupList";
      shape = backup_list_shape i;
      deep_copy = backup_list_deep_copy i;
      deep_copy_object = backup_list_deep_copy_object i;
    }
    ∷ []
