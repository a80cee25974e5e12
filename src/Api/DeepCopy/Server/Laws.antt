-- ===== src/Api/DeepCopy/Server/Laws.antt =====
-- The generated copies of serenedb_types.go are deep, field by field.
use serenedb_operator.Api.DeepCopy.Objects.{api_type-IsCopied, IsCopied, CopiesDeeply}
use serenedb_operator.Api.DeepCopy.ServerParts.Laws.{
  service_spec_deep_copy_into-IsDeep, persistence_spec_deep_copy_into-IsDeep,
  config_spec_deep_copy_into-IsDeep,
}
use serenedb_operator.Api.DeepCopy.Deep.{deep_copy-IsDeep, slice_into-IsDeep, IsDeep}
use serenedb_operator.Api.DeepCopy.ServerParts.{
  tls_spec_shape, postgres_listener_spec_shape, network_policy_spec_shape, listeners_spec_shape,
  image_spec_shape, http_listener_spec_shape, bootstrap_spec_shape, auth_spec_shape,
}
use serenedb_operator.Api.DeepCopy.Copiers.{assign, Imports, copier}
use serenedb_operator.Api.DeepCopy.Server.{
  serenedb_list_deep_copy_object, serenedb_list_deep_copy, serenedb_deep_copy_object,
  serenedb_deep_copy, registered_server, serenedb_status_deep_copy_into,
  serenedb_spec_deep_copy_into, serenedb_list_deep_copy_into, serenedb_deep_copy_into,
  serenedb_status_shape, serenedb_spec_shape, serenedb_shape, serenedb_list_shape,
}
use serenedb_operator.Api.DeepCopy.Memory.{plain}
use serenedb_operator.Api.DeepCopy.Structs.{
  mapping_into-IsDeep, assign-IsDeep, struct_into-IsDeep, flat, ◌and◌,
}
use serenedb_operator.Prelude.{All, refl}

pub serenedb_spec_deep_copy_into-IsDeep :
    (i : Imports) → CopiesDeeply i → IsDeep (serenedb_spec_shape i) (serenedb_spec_deep_copy_into i)
unfolding serenedb_spec_shape serenedb_spec_deep_copy_into copier auth_spec_shape
    bootstrap_spec_shape http_listener_spec_shape image_spec_shape listeners_spec_shape
    network_policy_spec_shape postgres_listener_spec_shape tls_spec_shape flat
serenedb_spec_deep_copy_into-IsDeep i d = struct_into-IsDeep _ _ (
    deep_copy-IsDeep bootstrap_spec_shape assign (assign-IsDeep bootstrap_spec_shape refl)
    and assign-IsDeep image_spec_shape refl
    and slice_into-IsDeep plain assign (assign-IsDeep plain refl)
    and assign-IsDeep auth_spec_shape refl
    and assign-IsDeep listeners_spec_shape refl
    and assign-IsDeep tls_spec_shape refl
    and config_spec_deep_copy_into-IsDeep
    and persistence_spec_deep_copy_into-IsDeep i d
    and d "corev1.ResourceRequirements"
    and deep_copy-IsDeep plain assign (assign-IsDeep plain refl)
    and service_spec_deep_copy_into-IsDeep
    and assign-IsDeep network_policy_spec_shape refl
    and slice_into-IsDeep (i.shape_of "corev1.EnvVar") (i.into_of "corev1.EnvVar")
        (d "corev1.EnvVar")
    and mapping_into-IsDeep
    and mapping_into-IsDeep
    and mapping_into-IsDeep
    and slice_into-IsDeep (i.shape_of "corev1.Toleration") (i.into_of "corev1.Toleration")
        (d "corev1.Toleration")
    and deep_copy-IsDeep (i.shape_of "corev1.Affinity") (i.into_of "corev1.Affinity")
        (d "corev1.Affinity")
    and assign-IsDeep plain refl
    and tt)

pub serenedb_status_deep_copy_into-IsDeep :
    (i : Imports)
    → CopiesDeeply i
    → IsDeep (serenedb_status_shape i) (serenedb_status_deep_copy_into i)
unfolding serenedb_status_shape serenedb_status_deep_copy_into copier flat
serenedb_status_deep_copy_into-IsDeep i d = struct_into-IsDeep _ _ (
    assign-IsDeep plain refl
    and slice_into-IsDeep (i.shape_of "metav1.Condition") (i.into_of "metav1.Condition")
        (d "metav1.Condition")
    and assign-IsDeep plain refl
    and assign-IsDeep plain refl
    and assign-IsDeep plain refl
    and assign-IsDeep plain refl
    and assign-IsDeep plain refl
    and tt)

pub serenedb_deep_copy_into-IsDeep :
    (i : Imports) → CopiesDeeply i → IsDeep (serenedb_shape i) (serenedb_deep_copy_into i)
unfolding serenedb_shape serenedb_deep_copy_into copier flat
serenedb_deep_copy_into-IsDeep i d = struct_into-IsDeep _ _ (
    assign-IsDeep plain refl
    and d "metav1.ObjectMeta"
    and serenedb_spec_deep_copy_into-IsDeep i d
    and serenedb_status_deep_copy_into-IsDeep i d
    and tt)

pub serenedb_list_deep_copy_into-IsDeep :
    (i : Imports) → CopiesDeeply i → IsDeep (serenedb_list_shape i) (serenedb_list_deep_copy_into i)
unfolding serenedb_list_shape serenedb_list_deep_copy_into copier flat
serenedb_list_deep_copy_into-IsDeep i d = struct_into-IsDeep _ _ (
    assign-IsDeep plain refl
    and d "metav1.ListMeta"
    and slice_into-IsDeep (serenedb_shape i) (serenedb_deep_copy_into i)
        (serenedb_deep_copy_into-IsDeep i d)
    and tt)

pub registered_server-IsCopied : (i : Imports) → CopiesDeeply i → All IsCopied (registered_server i)
unfolding registered_server serenedb_deep_copy serenedb_deep_copy_object serenedb_list_deep_copy
    serenedb_list_deep_copy_object
registered_server-IsCopied i d =
    api_type-IsCopied "SereneDB" (serenedb_shape i) (serenedb_deep_copy_into i)
      (serenedb_deep_copy_into-IsDeep i d)
    and api_type-IsCopied "SereneDBList" (serenedb_list_shape i) (serenedb_list_deep_copy_into i)
        (serenedb_list_deep_copy_into-IsDeep i d)
    and tt
