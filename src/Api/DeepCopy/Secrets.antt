-- ===== src/Api/DeepCopy/Secrets.antt =====
-- api/v1alpha1/serversecret_types.go: its kind and the list of it, as Go types over
-- memory, with their functions in zz_generated.deepcopy.go. A type of another package that the
-- generated code assigns has no references, and is plain.
pub mod Laws
use serenedb_operator.Api.DeepCopy.Dependents.{
  dependent_status_deep_copy_into, dependent_status_shape, cluster_ref_shape,
}
use serenedb_operator.Api.DeepCopy.Copiers.{
  deep_copy_object, RuntimeObject, slice_into, mapping_into, Copied, assign, ApiType, struct_into,
  deep_copy, Imports, Copier,
}
use serenedb_operator.Api.DeepCopy.Memory.{
  pointer, Heap, slice, Val, struct_of, Shape, plain, mapping,
}
use serenedb_operator.Prelude.{List, String, refl}
use mathlib.Core.List.{[], ◌∷◌}

unfoldable pub server_secret_spec_shape : Shape
server_secret_spec_shape = struct_of (
    ("Cluster", cluster_ref_shape)
    ∷ ("Name", plain)
    ∷ ("Type", plain)
    ∷ ("Scope", plain)
    ∷ ("Options", mapping)
    ∷ ("ValuesFrom", pointer plain)
    ∷ [])

unfoldable pub server_secret_spec_deep_copy_into : Copier
server_secret_spec_deep_copy_into =
    struct_into
      (("Cluster", assign) ∷ ("Options", mapping_into) ∷ ("ValuesFrom", deep_copy assign) ∷ [])

unfoldable pub server_secret_spec_deep_copy : Copier
server_secret_spec_deep_copy = deep_copy server_secret_spec_deep_copy_into

unfoldable pub server_secret_status_shape : Imports → Shape
server_secret_status_shape i =
    struct_of (("DependentStatus", dependent_status_shape i) ∷ ("ValuesSecretVersion", plain) ∷ [])

unfoldable pub server_secret_status_deep_copy_into : Imports → Copier
server_secret_status_deep_copy_into i =
    struct_into (("DependentStatus", dependent_status_deep_copy_into i) ∷ [])

unfoldable pub server_secret_status_deep_copy : Imports → Copier
server_secret_status_deep_copy i = deep_copy (server_secret_status_deep_copy_into i)

unfoldable pub server_secret_shape : Imports → Shape
server_secret_shape i = struct_of (
    ("TypeMeta", plain)
    ∷ ("ObjectMeta", i.shape_of "metav1.ObjectMeta")
    ∷ ("Spec", server_secret_spec_shape)
    ∷ ("Status", server_secret_status_shape i)
    ∷ [])

unfoldable pub server_secret_deep_copy_into : Imports → Copier
server_secret_deep_copy_into i = struct_into (
    ("TypeMeta", assign)
    ∷ ("ObjectMeta", i.into_of "metav1.ObjectMeta")
    ∷ ("Spec", server_secret_spec_deep_copy_into)
    ∷ ("Status", server_secret_status_deep_copy_into i)
    ∷ [])

unfoldable pub server_secret_deep_copy : Imports → Copier
server_secret_deep_copy i = deep_copy (server_secret_deep_copy_into i)

unfoldable pub server_secret_deep_copy_object : Imports → Val → Heap → Copied RuntimeObject
server_secret_deep_copy_object i = deep_copy_object "ServerSecret" (server_secret_deep_copy i)

unfoldable pub server_secret_list_shape : Imports → Shape
server_secret_list_shape i = struct_of (
    ("TypeMeta", plain)
    ∷ ("ListMeta", i.shape_of "metav1.ListMeta")
    ∷ ("Items", slice (server_secret_shape i))
    ∷ [])

unfoldable pub server_secret_list_deep_copy_into : Imports → Copier
server_secret_list_deep_copy_into i = struct_into (
    ("TypeMeta", assign)
    ∷ ("ListMeta", i.into_of "metav1.ListMeta")
    ∷ ("Items", slice_into (server_secret_deep_copy_into i))
    ∷ [])

unfoldable pub server_secret_list_deep_copy : Imports → Copier
server_secret_list_deep_copy i = deep_copy (server_secret_list_deep_copy_into i)

unfoldable pub server_secret_list_deep_copy_object : Imports → Val → Heap → Copied RuntimeObject
server_secret_list_deep_copy_object i =
    deep_copy_object "ServerSecretList" (server_secret_list_deep_copy i)

-- `SchemeBuilder.Register`, in the file's init.
unfoldable pub registered_secrets : Imports → List ApiType
registered_secrets i =
    record {
      kind = "ServerSecret";
      shape = server_secret_shape i;
      deep_copy = server_secret_deep_copy i;
      deep_copy_object = server_secret_deep_copy_object i;
    }
    ∷ record {
      kind = "ServerSecretList";
      shape = server_secret_list_shape i;
      deep_copy = server_secret_list_deep_copy i;
      deep_copy_object = server_secret_list_deep_copy_object i;
    }
    ∷ []
