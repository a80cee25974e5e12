-- ===== src/Api/DeepCopy/Dependents/Laws.antt =====
-- The generated copies of dependent_types.go are deep, field by field.
use serenedb_operator.Api.DeepCopy.Objects.{CopiesDeeply}
use serenedb_operator.Api.DeepCopy.Deep.{slice_into-IsDeep, IsDeep}
use serenedb_operator.Api.DeepCopy.Copiers.{Imports, copier}
use serenedb_operator.Api.DeepCopy.Dependents.{
  dependent_status_deep_copy_into, cluster_ref_deep_copy_into, dependent_status_shape,
  cluster_ref_shape,
}
use serenedb_operator.Api.DeepCopy.Memory.{plain}
use serenedb_operator.Api.DeepCopy.Structs.{struct_into-IsDeep, assign-IsDeep, flat, ◌and◌}
use serenedb_operator.Prelude.{refl}

pub cluster_ref_deep_copy_into-IsDeep : IsDeep cluster_ref_shape cluster_ref_deep_copy_into
unfolding cluster_ref_shape cluster_ref_deep_copy_into flat
cluster_ref_deep_copy_into-IsDeep = assign-IsDeep cluster_ref_shape refl

pub dependent_status_deep_copy_into-IsDeep :
    (i : Imports)
    → CopiesDeeply i
    → IsDeep (dependent_status_shape i) (dependent_status_deep_copy_into i)
unfolding dependent_status_shape dependent_status_deep_copy_into copier flat
dependent_status_deep_copy_into-IsDeep i d = struct_into-IsDeep _ _ (
    assign-IsDeep plain refl
    and slice_into-IsDeep (i.shape_of "metav1.Condition") (i.into_of "metav1.Condition")
        (d "metav1.Condition")
    and tt)
