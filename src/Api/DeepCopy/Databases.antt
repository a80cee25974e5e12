-- ===== src/Api/DeepCopy/Databases.antt =====
-- api/v1alpha1/database_types.go: its kind and the list of it, as Go types over
-- memory, with their functions in zz_generated.deepcopy.go. A type of another package that the
-- generated code assigns has no references, and is plain.
pub mod Laws
use serenedb_operator.Api.DeepCopy.Dependents.{
  dependent_status_deep_copy_into, dependent_status_shape, cluster_ref_shape,
}
use serenedb_operator.Api.DeepCopy.Copiers.{
  deep_copy_object, RuntimeObject, slice_into, Copied, assign, ApiType, struct_into, deep_copy,
  Imports, Copier,
}
use serenedb_operator.Api.DeepCopy.Memory.{Heap, slice, Val, struct_of, Shape, plain, mapping}
use serenedb_operator.Prelude.{List, String, refl}
use mathlib.Core.List.{[], ◌∷◌}

unfoldable pub database_spec_shape : Shape
database_spec_shape =
    struct_of (("Cluster", cluster_ref_shape) ∷ ("Name", plain) ∷ ("ReclaimPolicy", plain) ∷ [])

unfoldable pub database_spec_deep_copy_into : Copier
database_spec_deep_copy_into = struct_into (("Cluster", assign) ∷ [])

unfoldable pub database_spec_deep_copy : Copier
database_spec_deep_copy = deep_copy database_spec_deep_copy_into

unfoldable pub database_status_shape : Imports → Shape
database_status_shape i = struct_of (("DependentStatus", dependent_status_shape i) ∷ [])

unfoldable pub database_status_deep_copy_into : Imports → Copier
database_status_deep_copy_into i =
    struct_into (("DependentStatus", dependent_status_deep_copy_into i) ∷ [])

unfoldable pub database_status_deep_copy : Imports → Copier
database_status_deep_copy i = deep_copy (database_status_deep_copy_into i)

unfoldable pub database_shape : Imports → Shape
database_shape i = struct_of (
    ("TypeMeta", plain)
    ∷ ("ObjectMeta", i.shape_of "metav1.ObjectMeta")
    ∷ ("Spec", database_spec_shape)
    ∷ ("Status", database_status_shape i)
    ∷ [])

unfoldable pub database_deep_copy_into : Imports → Copier
database_deep_copy_into i = struct_into (
    ("TypeMeta", assign)
    ∷ ("ObjectMeta", i.into_of "metav1.ObjectMeta")
    ∷ ("Spec", assign)
    ∷ ("Status", database_status_deep_copy_into i)
    ∷ [])

unfoldable pub database_deep_copy : Imports → Copier
database_deep_copy i = deep_copy (database_deep_copy_into i)

unfoldable pub database_deep_copy_object : Imports → Val → Heap → Copied RuntimeObject
database_deep_copy_object i = deep_copy_object "Database" (database_deep_copy i)

unfoldable pub database_list_shape : Imports → Shape
database_list_shape i = struct_of (
    ("TypeMeta", plain)
    ∷ ("ListMeta", i.shape_of "metav1.ListMeta")
    ∷ ("Items", slice (database_shape i))
    ∷ [])

unfoldable pub database_list_deep_copy_into : Imports → Copier
database_list_deep_copy_into i = struct_into (
    ("TypeMeta", assign)
    ∷ ("ListMeta", i.into_of "metav1.ListMeta")
    ∷ ("Items", slice_into (database_deep_copy_into i))
    ∷ [])

unfoldable pub database_list_deep_copy : Imports → Copier
database_list_deep_copy i = deep_copy (database_list_deep_copy_into i)

unfoldable pub database_list_deep_copy_object : Imports → Val → Heap → Copied RuntimeObject
database_list_deep_copy_object i = deep_copy_object "DatabaseList" (database_list_deep_copy i)

-- `SchemeBuilder.Register`, in the file's init.
unfoldable pub registered_databases : Imports → List ApiType
registered_databases i =
    record {
      kind = "Database";
      shape = database_shape i;
      deep_copy = database_deep_copy i;
      deep_copy_object = database_deep_copy_object i;
    }
    ∷ record {
      kind = "DatabaseList";
      shape = database_list_shape i;
      deep_copy = database_list_deep_copy i;
      deep_copy_object = database_list_deep_copy_object i;
    }
    ∷ []
