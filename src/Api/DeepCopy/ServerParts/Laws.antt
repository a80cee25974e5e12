-- ===== src/Api/DeepCopy/ServerParts/Laws.antt =====
-- The generated copies of serenedb_types.go are deep, field by field.
use serenedb_operator.Api.DeepCopy.Objects.{CopiesDeeply}
use serenedb_operator.Api.DeepCopy.Deep.{slice_into-IsDeep, deep_copy-IsDeep, IsDeep}
use serenedb_operator.Api.DeepCopy.Copiers.{assign, Imports, copier}
use serenedb_operator.Api.DeepCopy.ServerParts.{
  tls_spec_deep_copy_into, service_spec_deep_copy_into, retention_policy_spec_deep_copy_into,
  postgres_listener_spec_deep_copy_into, persistence_spec_deep_copy_into,
  network_policy_spec_deep_copy_into, listeners_spec_deep_copy_into, image_spec_deep_copy_into,
  http_listener_spec_deep_copy_into, config_spec_deep_copy_into, bootstrap_spec_deep_copy_into,
  auth_spec_deep_copy_into, tls_spec_shape, service_spec_shape, retention_policy_spec_shape,
  postgres_listener_spec_shape, persistence_spec_shape, network_policy_spec_shape,
  listeners_spec_shape, image_spec_shape, http_listener_spec_shape, config_spec_shape,
  bootstrap_spec_shape, auth_spec_shape,
}
use serenedb_operator.Api.DeepCopy.Memory.{plain}
use serenedb_operator.Api.DeepCopy.Structs.{
  mapping_into-IsDeep, struct_into-IsDeep, assign-IsDeep, flat, ◌and◌,
}
use serenedb_operator.Prelude.{refl}

pub image_spec_deep_copy_into-IsDeep : IsDeep image_spec_shape image_spec_deep_copy_into
unfolding image_spec_shape image_spec_deep_copy_into flat
image_spec_deep_copy_into-IsDeep = assign-IsDeep image_spec_shape refl

pub auth_spec_deep_copy_into-IsDeep : IsDeep auth_spec_shape auth_spec_deep_copy_into
unfolding auth_spec_shape auth_spec_deep_copy_into flat
auth_spec_deep_copy_into-IsDeep = assign-IsDeep auth_spec_shape refl

pub postgres_listener_spec_deep_copy_into-IsDeep :
    IsDeep postgres_listener_spec_shape postgres_listener_spec_deep_copy_into
unfolding postgres_listener_spec_shape postgres_listener_spec_deep_copy_into flat
postgres_listener_spec_deep_copy_into-IsDeep = assign-IsDeep postgres_listener_spec_shape refl

pub http_listener_spec_deep_copy_into-IsDeep :
    IsDeep http_listener_spec_shape http_listener_spec_deep_copy_into
unfolding http_listener_spec_shape http_listener_spec_deep_copy_into flat
http_listener_spec_deep_copy_into-IsDeep = assign-IsDeep http_listener_spec_shape refl

pub listeners_spec_deep_copy_into-IsDeep : IsDeep listeners_spec_shape listeners_spec_deep_copy_into
unfolding listeners_spec_shape listeners_spec_deep_copy_into copier http_listener_spec_shape
    postgres_listener_spec_shape flat
listeners_spec_deep_copy_into-IsDeep = struct_into-IsDeep _ _ (
    assign-IsDeep postgres_listener_spec_shape refl
    and assign-IsDeep http_listener_spec_shape refl
    and tt)

pub tls_spec_deep_copy_into-IsDeep : IsDeep tls_spec_shape tls_spec_deep_copy_into
unfolding tls_spec_shape tls_spec_deep_copy_into flat
tls_spec_deep_copy_into-IsDeep = assign-IsDeep tls_spec_shape refl

pub config_spec_deep_copy_into-IsDeep : IsDeep config_spec_shape config_spec_deep_copy_into
unfolding config_spec_shape config_spec_deep_copy_into copier flat
config_spec_deep_copy_into-IsDeep = struct_into-IsDeep _ _ (
    assign-IsDeep plain refl
    and assign-IsDeep plain refl
    and assign-IsDeep plain refl
    and assign-IsDeep plain refl
    and assign-IsDeep plain refl
    and assign-IsDeep plain refl
    and assign-IsDeep plain refl
    and assign-IsDeep plain refl
    and assign-IsDeep plain refl
    and slice_into-IsDeep plain assign (assign-IsDeep plain refl)
    and tt)

pub retention_policy_spec_deep_copy_into-IsDeep :
    IsDeep retention_policy_spec_shape retention_policy_spec_deep_copy_into
unfolding retention_policy_spec_shape retention_policy_spec_deep_copy_into flat
retention_policy_spec_deep_copy_into-IsDeep = assign-IsDeep retention_policy_spec_shape refl

pub persistence_spec_deep_copy_into-IsDeep :
    (i : Imports)
    → CopiesDeeply i
    → IsDeep (persistence_spec_shape i) (persistence_spec_deep_copy_into i)
unfolding persistence_spec_shape persistence_spec_deep_copy_into copier retention_policy_spec_shape
    flat
persistence_spec_deep_copy_into-IsDeep i d = struct_into-IsDeep _ _ (
    deep_copy-IsDeep (i.shape_of "resource.Quantity") (i.into_of "resource.Quantity")
      (d "resource.Quantity")
    and deep_copy-IsDeep plain assign (assign-IsDeep plain refl)
    and slice_into-IsDeep plain assign (assign-IsDeep plain refl)
    and assign-IsDeep plain refl
    and assign-IsDeep retention_policy_spec_shape refl
    and tt)

pub service_spec_deep_copy_into-IsDeep : IsDeep service_spec_shape service_spec_deep_copy_into
unfolding service_spec_shape service_spec_deep_copy_into copier flat
service_spec_deep_copy_into-IsDeep =
    struct_into-IsDeep _ _
      (assign-IsDeep plain refl and assign-IsDeep plain refl and mapping_into-IsDeep and tt)

pub network_policy_spec_deep_copy_into-IsDeep :
    IsDeep network_policy_spec_shape network_policy_spec_deep_copy_into
unfolding network_policy_spec_shape network_policy_spec_deep_copy_into flat
network_policy_spec_deep_copy_into-IsDeep = assign-IsDeep network_policy_spec_shape refl

pub bootstrap_spec_deep_copy_into-IsDeep : IsDeep bootstrap_spec_shape bootstrap_spec_deep_copy_into
unfolding bootstrap_spec_shape bootstrap_spec_deep_copy_into flat
bootstrap_spec_deep_copy_into-IsDeep = assign-IsDeep bootstrap_spec_shape refl
