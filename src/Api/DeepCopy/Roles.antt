-- ===== src/Api/DeepCopy/Roles.antt =====
-- api/v1alpha1/databaserole_types.go: its kind and the list of it, as Go types over
-- memory, with their functions in zz_generated.deepcopy.go. A type of another package that the
-- generated code assigns has no references, and is plain.
pub mod Laws
use serenedb_operator.Api.DeepCopy.Dependents.{
  dependent_status_deep_copy_into, dependent_status_shape, cluster_ref_shape,
}
use serenedb_operator.Api.DeepCopy.Copiers.{
  deep_copy_object, RuntimeObject, Copied, slice_into, ApiType, struct_into, deep_copy, assign,
  Imports, Copier,
}
use serenedb_operator.Api.DeepCopy.Memory.{
  pointer, Heap, slice, Val, struct_of, Shape, plain, mapping,
}
use serenedb_operator.Prelude.{List, String, refl}
use mathlib.Core.List.{[], ◌∷◌}

unfoldable pub password_secret_ref_shape : Shape
password_secret_ref_shape = struct_of (("Name", plain) ∷ ("Key", plain) ∷ [])

unfoldable pub password_secret_ref_deep_copy_into : Copier
password_secret_ref_deep_copy_into = assign

unfoldable pub password_secret_ref_deep_copy : Copier
password_secret_ref_deep_copy = deep_copy password_secret_ref_deep_copy_into

unfoldable pub database_role_spec_shape : Shape
database_role_spec_shape = struct_of (
    ("Cluster", cluster_ref_shape)
    ∷ ("Name", plain)
    ∷ ("Login", plain)
    ∷ ("Superuser", plain)
    ∷ ("CreateDB", plain)
    ∷ ("CreateRole", plain)
    ∷ ("Inherit", pointer plain)
    ∷ ("ConnectionLimit", pointer plain)
    ∷ ("ValidUntil", plain)
    ∷ ("PasswordSecret", pointer password_secret_ref_shape)
    ∷ ("InRoles", slice plain)
    ∷ ("ReclaimPolicy", plain)
    ∷ [])

unfoldable pub database_role_spec_deep_copy_into : Copier
database_role_spec_deep_copy_into = struct_into (
    ("Cluster", assign)
    ∷ ("Inherit", deep_copy assign)
    ∷ ("ConnectionLimit", deep_copy assign)
    ∷ ("PasswordSecret", deep_copy assign)
    ∷ ("InRoles", slice_into assign)
    ∷ [])

unfoldable pub database_role_spec_deep_copy : Copier
database_role_spec_deep_copy = deep_copy database_role_spec_deep_copy_into

unfoldable pub database_role_status_shape : Imports → Shape
database_role_status_shape i =
    struct_of
      (("DependentStatus", dependent_status_shape i) ∷ ("PasswordSecretVersion", plain) ∷ [])

unfoldable pub database_role_status_deep_copy_into : Imports → Copier
database_role_status_deep_copy_into i =
    struct_into (("DependentStatus", dependent_status_deep_copy_into i) ∷ [])

unfoldable pub database_role_status_deep_copy : Imports → Copier
database_role_status_deep_copy i = deep_copy (database_role_status_deep_copy_into i)

unfoldable pub database_role_shape : Imports → Shape
database_role_shape i = struct_of (
    ("TypeMeta", plain)
    ∷ ("ObjectMeta", i.shape_of "metav1.ObjectMeta")
    ∷ ("Spec", database_role_spec_shape)
    ∷ ("Status", database_role_status_shape i)
    ∷ [])

unfoldable pub database_role_deep_copy_into : Imports → Copier
database_role_deep_copy_into i = struct_into (
    ("TypeMeta", assign)
    ∷ ("ObjectMeta", i.into_of "metav1.ObjectMeta")
    ∷ ("Spec", database_role_spec_deep_copy_into)
    ∷ ("Status", database_role_status_deep_copy_into i)
    ∷ [])

unfoldable pub database_role_deep_copy : Imports → Copier
database_role_deep_copy i = deep_copy (database_role_deep_copy_into i)

unfoldable pub database_role_deep_copy_object : Imports → Val → Heap → Copied RuntimeObject
database_role_deep_copy_object i = deep_copy_object "DatabaseRole" (database_role_deep_copy i)

unfoldable pub database_role_list_shape : Imports → Shape
database_role_list_shape i = struct_of (
    ("TypeMeta", plain)
    ∷ ("ListMeta", i.shape_of "metav1.ListMeta")
    ∷ ("Items", slice (database_role_shape i))
    ∷ [])

unfoldable pub database_role_list_deep_copy_into : Imports → Copier
database_role_list_deep_copy_into i = struct_into (
    ("TypeMeta", assign)
    ∷ ("ListMeta", i.into_of "metav1.ListMeta")
    ∷ ("Items", slice_into (database_role_deep_copy_into i))
    ∷ [])

unfoldable pub database_role_list_deep_copy : Imports → Copier
database_role_list_deep_copy i = deep_copy (database_role_list_deep_copy_into i)

unfoldable pub database_role_list_deep_copy_object : Imports → Val → Heap → Copied RuntimeObject
database_role_list_deep_copy_object i =
    deep_copy_object "DatabaseRoleList" (database_role_list_deep_copy i)

-- `SchemeBuilder.Register`, in the file's init.
unfoldable pub registered_roles : Imports → List ApiType
registered_roles i =
    record {
      kind = "DatabaseRole";
      shape = database_role_shape i;
      deep_copy = database_role_deep_copy i;
      deep_copy_object = database_role_deep_copy_object i;
    }
    ∷ record {
      kind = "DatabaseRoleList";
      shape = database_role_list_shape i;
      deep_copy = database_role_list_deep_copy i;
      deep_copy_object = database_role_list_deep_copy_object i;
    }
    ∷ []
