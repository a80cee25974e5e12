-- ===== src/Api/DeepCopy/Secrets/Laws.antt =====
-- The generated copies of serversecret_types.go are deep, field by field.
use serenedb_operator.Api.DeepCopy.Objects.{api_type-IsCopied, IsCopied, CopiesDeeply}
use serenedb_operator.Api.DeepCopy.Dependents.Laws.{dependent_status_deep_copy_into-IsDeep}
use serenedb_operator.Api.DeepCopy.Deep.{deep_copy-IsDeep, slice_into-IsDeep, IsDeep}
use serenedb_operator.Api.DeepCopy.Dependents.{cluster_ref_shape}
use serenedb_operator.Api.DeepCopy.Copiers.{assign, Imports, copier}
use serenedb_operator.Api.DeepCopy.Secrets.{
  server_secret_list_deep_copy_object, server_secret_list_deep_copy, server_secret_deep_copy_object,
  server_secret_deep_copy, registered_secrets, server_secret_status_deep_copy_into,
  server_secret_spec_deep_copy_into, server_secret_list_deep_copy_into,
  server_secret_deep_copy_into, server_secret_status_shape, server_secret_spec_shape,
  server_secret_shape, server_secret_list_shape,
}
use serenedb_operator.Api.DeepCopy.Memory.{plain}
use serenedb_operator.Api.DeepCopy.Structs.{
  mapping_into-IsDeep, assign-IsDeep, struct_into-IsDeep, flat, ◌and◌,
}
use serenedb_operator.Prelude.{All, refl}

pub server_secret_spec_deep_copy_into-IsDeep :
    IsDeep server_secret_spec_shape server_secret_spec_deep_copy_into
unfolding server_secret_spec_shape server_secret_spec_deep_copy_into copier cluster_ref_shape flat
server_secret_spec_deep_copy_into-IsDeep = struct_into-IsDeep _ _ (
    assign-IsDeep cluster_ref_shape refl
    and assign-IsDeep plain refl
    and assign-IsDeep plain refl
    and assign-IsDeep plain refl
    and mapping_into-IsDeep
    and deep_copy-IsDeep plain assign (assign-IsDeep plain refl)
    and tt)

pub server_secret_status_deep_copy_into-IsDeep :
    (i : Imports)
    → CopiesDeeply i
    → IsDeep (server_secret_status_shape i) (server_secret_status_deep_copy_into i)
unfolding server_secret_status_shape server_secret_status_deep_copy_into copier flat
server_secret_status_deep_copy_into-IsDeep i d =
    struct_into-IsDeep _ _
      (dependent_status_deep_copy_into-IsDeep i d and assign-IsDeep plain refl and tt)

pub server_secret_deep_copy_into-IsDeep :
    (i : Imports) → CopiesDeeply i → IsDeep (server_secret_shape i) (server_secret_deep_copy_into i)
unfolding server_secret_shape server_secret_deep_copy_into copier flat
server_secret_deep_copy_into-IsDeep i d = struct_into-IsDeep _ _ (
    assign-IsDeep plain refl
    and d "metav1.ObjectMeta"
    and server_secret_spec_deep_copy_into-IsDeep
    and server_secret_status_deep_copy_into-IsDeep i d
    and tt)

pub server_secret_list_deep_copy_into-IsDeep :
    (i : Imports)
    → CopiesDeeply i
    → IsDeep (server_secret_list_shape i) (server_secret_list_deep_copy_into i)
unfolding server_secret_list_shape server_secret_list_deep_copy_into copier flat
server_secret_list_deep_copy_into-IsDeep i d = struct_into-IsDeep _ _ (
    assign-IsDeep plain refl
    and d "metav1.ListMeta"
    and slice_into-IsDeep (server_secret_shape i) (server_secret_deep_copy_into i)
        (server_secret_deep_copy_into-IsDeep i d)
    and tt)

pub registered_secrets-IsCopied :
    (i : Imports) → CopiesDeeply i → All IsCopied (registered_secrets i)
unfolding registered_secrets server_secret_deep_copy server_secret_deep_copy_object
    server_secret_list_deep_copy server_secret_list_deep_copy_object
registered_secrets-IsCopied i d =
    api_type-IsCopied "ServerSecret" (server_secret_shape i) (server_secret_deep_copy_into i)
      (server_secret_deep_copy_into-IsDeep i d)
    and api_type-IsCopied "ServerSecretList" (server_secret_list_shape i)
        (server_secret_list_deep_copy_into i) (server_secret_list_deep_copy_into-IsDeep i d)
    and tt
