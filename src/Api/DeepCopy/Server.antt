-- ===== src/Api/DeepCopy/Server.antt =====
-- api/v1alpha1/serenedb_types.go: its kind and the list of it, as Go types over
-- memory, with their functions in zz_generated.deepcopy.go. A type of another package that the
-- generated code assigns has no references, and is plain.
pub mod Laws
use serenedb_operator.Api.DeepCopy.ServerParts.{
  network_policy_spec_shape, service_spec_shape, persistence_spec_shape, config_spec_shape,
  tls_spec_shape, service_spec_deep_copy_into, listeners_spec_shape,
  persistence_spec_deep_copy_into, auth_spec_shape, image_spec_shape, config_spec_deep_copy_into,
  bootstrap_spec_shape,
}
use serenedb_operator.Api.DeepCopy.Copiers.{
  mapping_into, deep_copy_object, RuntimeObject, slice_into, assign, Copied, struct_into, deep_copy,
  ApiType, Copier, Imports,
}
use serenedb_operator.Api.DeepCopy.Memory.{
  slice, pointer, Heap, struct_of, Val, Shape, plain, mapping,
}
use serenedb_operator.Prelude.{List, String, refl}
use mathlib.Core.List.{[], ◌∷◌}

unfoldable pub serenedb_spec_shape : Imports → Shape
serenedb_spec_shape i = struct_of (
    ("Bootstrap", pointer bootstrap_spec_shape)
    ∷ ("Image", image_spec_shape)
    ∷ ("ImagePullSecrets", slice plain)
    ∷ ("Auth", auth_spec_shape)
    ∷ ("Listeners", listeners_spec_shape)
    ∷ ("TLS", tls_spec_shape)
    ∷ ("Config", config_spec_shape)
    ∷ ("Persistence", persistence_spec_shape i)
    ∷ ("Resources", i.shape_of "corev1.ResourceRequirements")
    ∷ ("TerminationGracePeriodSeconds", pointer plain)
    ∷ ("Service", service_spec_shape)
    ∷ ("NetworkPolicy", network_policy_spec_shape)
    ∷ ("Env", slice (i.shape_of "corev1.EnvVar"))
    ∷ ("PodAnnotations", mapping)
    ∷ ("PodLabels", mapping)
    ∷ ("NodeSelector", mapping)
    ∷ ("Tolerations", slice (i.shape_of "corev1.Toleration"))
    ∷ ("Affinity", pointer (i.shape_of "corev1.Affinity"))
    ∷ ("PriorityClassName", plain)
    ∷ [])

unfoldable pub serenedb_spec_deep_copy_into : Imports → Copier
serenedb_spec_deep_copy_into i = struct_into (
    ("Bootstrap", deep_copy assign)
    ∷ ("Image", assign)
    ∷ ("ImagePullSecrets", slice_into assign)
    ∷ ("Auth", assign)
    ∷ ("Listeners", assign)
    ∷ ("TLS", assign)
    ∷ ("Config", config_spec_deep_copy_into)
    ∷ ("Persistence", persistence_spec_deep_copy_into i)
    ∷ ("Resources", i.into_of "corev1.ResourceRequirements")
    ∷ ("TerminationGracePeriodSeconds", deep_copy assign)
    ∷ ("Service", service_spec_deep_copy_into)
    ∷ ("NetworkPolicy", assign)
    ∷ ("Env", slice_into (i.into_of "corev1.EnvVar"))
    ∷ ("PodAnnotations", mapping_into)
    ∷ ("PodLabels", mapping_into)
    ∷ ("NodeSelector", mapping_into)
    ∷ ("Tolerations", slice_into (i.into_of "corev1.Toleration"))
    ∷ ("Affinity", deep_copy (i.into_of "corev1.Affinity"))
    ∷ [])

unfoldable pub serenedb_spec_deep_copy : Imports → Copier
serenedb_spec_deep_copy i = deep_copy (serenedb_spec_deep_copy_into i)

unfoldable pub serenedb_status_shape : Imports → Shape
serenedb_status_shape i = struct_of (
    ("ObservedGeneration", plain)
    ∷ ("Conditions", slice (i.shape_of "metav1.Condition"))
    ∷ ("ReadyReplicas", plain)
    ∷ ("Version", plain)
    ∷ ("SecretName", plain)
    ∷ ("Host", plain)
    ∷ ("Port", plain)
    ∷ [])

unfoldable pub serenedb_status_deep_copy_into : Imports → Copier
serenedb_status_deep_copy_into i =
    struct_into (("Conditions", slice_into (i.into_of "metav1.Condition")) ∷ [])

unfoldable pub serenedb_status_deep_copy : Imports → Copier
serenedb_status_deep_copy i = deep_copy (serenedb_status_deep_copy_into i)

unfoldable pub serenedb_shape : Imports → Shape
serenedb_shape i = struct_of (
    ("TypeMeta", plain)
    ∷ ("ObjectMeta", i.shape_of "metav1.ObjectMeta")
    ∷ ("Spec", serenedb_spec_shape i)
    ∷ ("Status", serenedb_status_shape i)
    ∷ [])

unfoldable pub serenedb_deep_copy_into : Imports → Copier
serenedb_deep_copy_into i = struct_into (
    ("TypeMeta", assign)
    ∷ ("ObjectMeta", i.into_of "metav1.ObjectMeta")
    ∷ ("Spec", serenedb_spec_deep_copy_into i)
    ∷ ("Status", serenedb_status_deep_copy_into i)
    ∷ [])

unfoldable pub serenedb_deep_copy : Imports → Copier
serenedb_deep_copy i = deep_copy (serenedb_deep_copy_into i)

unfoldable pub serenedb_deep_copy_object : Imports → Val → Heap → Copied RuntimeObject
serenedb_deep_copy_object i = deep_copy_object "SereneDB" (serenedb_deep_copy i)

unfoldable pub serenedb_list_shape : Imports → Shape
serenedb_list_shape i = struct_of (
    ("TypeMeta", plain)
    ∷ ("ListMeta", i.shape_of "metav1.ListMeta")
    ∷ ("Items", slice (serenedb_shape i))
    ∷ [])

unfoldable pub serenedb_list_deep_copy_into : Imports → Copier
serenedb_list_deep_copy_into i = struct_into (
    ("TypeMeta", assign)
    ∷ ("ListMeta", i.into_of "metav1.ListMeta")
    ∷ ("Items", slice_into (serenedb_deep_copy_into i))
    ∷ [])

unfoldable pub serenedb_list_deep_copy : Imports → Copier
serenedb_list_deep_copy i = deep_copy (serenedb_list_deep_copy_into i)

unfoldable pub serenedb_list_deep_copy_object : Imports → Val → Heap → Copied RuntimeObject
serenedb_list_deep_copy_object i = deep_copy_object "SereneDBList" (serenedb_list_deep_copy i)

-- `SchemeBuilder.Register`, in the file's init.
unfoldable pub registered_server : Imports → List ApiType
registered_server i =
    record {
      kind = "SereneDB";
      shape = serenedb_shape i;
      deep_copy = serenedb_deep_copy i;
      deep_copy_object = serenedb_deep_copy_object i;
    }
    ∷ record {
      kind = "SereneDBList";
      shape = serenedb_list_shape i;
      deep_copy = serenedb_list_deep_copy i;
      deep_copy_object = serenedb_list_deep_copy_object i;
    }
    ∷ []
