-- ===== src/Api/DeepCopy/Dependents.antt =====
-- api/v1alpha1/dependent_types.go: the types that the dependent kinds share, as Go types over
-- memory, with their functions in zz_generated.deepcopy.go. A type of another package that the
-- generated code assigns has no references, and is plain.
pub mod Laws
use serenedb_operator.Api.DeepCopy.Copiers.{
  slice_into, struct_into, deep_copy, assign, Imports, Copier,
}
use serenedb_operator.Api.DeepCopy.Memory.{slice, struct_of, Shape, plain, mapping}
use serenedb_operator.Prelude.{String, refl}
use mathlib.Core.List.{[], ◌∷◌}

unfoldable pub cluster_ref_shape : Shape
cluster_ref_shape = struct_of (("Name", plain) ∷ [])

unfoldable pub cluster_ref_deep_copy_into : Copier
cluster_ref_deep_copy_into = assign

unfoldable pub cluster_ref_deep_copy : Copier
cluster_ref_deep_copy = deep_copy cluster_ref_deep_copy_into

unfoldable pub dependent_status_shape : Imports → Shape
dependent_status_shape i =
    struct_of
      (("ObservedGeneration", plain) ∷ ("Conditions", slice (i.shape_of "metav1.Condition")) ∷ [])

unfoldable pub dependent_status_deep_copy_into : Imports → Copier
dependent_status_deep_copy_into i =
    struct_into (("Conditions", slice_into (i.into_of "metav1.Condition")) ∷ [])

unfoldable pub dependent_status_deep_copy : Imports → Copier
dependent_status_deep_copy i = deep_copy (dependent_status_deep_copy_into i)
