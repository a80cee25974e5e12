-- ===== src/Controller/Server/Mutate.antt =====
-- The functions that internal/controller/serenedb_controller.go gives to CreateOrUpdate: what it sets on
-- the owned objects and what it leaves to others.
pub mod Laws
use serenedb_operator.Prelude.{
  ℕ, String, Bool, Option, none, some, List, [], ◌∷◌, not, if◌then◌else◌, ◌==ℕ◌, ◌==◌, get_or,
}
use serenedb_operator.Prelude.Dict.{Dict, lookup, insert, copy}
use serenedb_operator.Errors.{Err, Result, ok, err, ◌>>=◌}
use serenedb_operator.Api.Meta.{ObjectMeta}
use serenedb_operator.Api.Core.{
  ConfigMap, Service, ServicePort, StatefulSet, StatefulSetSpec, NetworkPolicy,
}
use serenedb_operator.Api.SereneDb.{SereneDb}
use serenedb_operator.Controller.Kube.{Library}

-- Overlays desired keys onto current, so keys written by other controllers survive.
unfoldable pub merge_maps : Dict String → Dict String → Dict String
merge_maps current desired = copy current desired

-- The map of port names to node ports.
unfoldable pub assigned_ports : Dict ℕ → List ServicePort → Dict ℕ
assigned_ports assigned [] = assigned
assigned_ports assigned (p ∷ ports) = assigned_ports (insert p.name p.node_port assigned) ports

unfoldable pub keep_node_port : Dict ℕ → ServicePort → ServicePort
keep_node_port assigned p =
    if not (p.node_port ==ℕ 0)
    then p
    else record p { node_port = get_or 0 (lookup p.name assigned) }

unfoldable pub keep_node_ports : Dict ℕ → List ServicePort → List ServicePort
keep_node_ports assigned [] = []
keep_node_ports assigned (p ∷ ports) = keep_node_port assigned p ∷ keep_node_ports assigned ports

unfoldable pub keep_assigned_node_ports : (current desired : List ServicePort) → List ServicePort
keep_assigned_node_ports current desired = keep_node_ports (assigned_ports [] current) desired

module _ (lib : Library) (db : SereneDb) where
  -- `controllerutil.SetControllerReference(db, obj, r.Scheme)`
  abbrev owned : ObjectMeta → Result ObjectMeta
  owned m = lib.set_controller_reference db.metadata m

  unfoldable pub mutate_config_map : (desired current : ConfigMap) → Result ConfigMap
  mutate_config_map desired current = do
    let merged = merge_maps current.metadata.labels desired.metadata.labels
    m ← owned (record (current.metadata) { labels = merged })
    ok (record { metadata = m; content = desired.content })

  unfoldable pub mutate_service : (desired current : Service) → Result Service
  mutate_service desired current = do
    let merged = merge_maps current.metadata.labels desired.metadata.labels
    let notes = merge_maps current.metadata.annotations desired.metadata.annotations
    m ← owned (record (current.metadata) { labels = merged; annotations = notes })
    ok (record {
      metadata = m;
      service_type = desired.service_type;
      cluster_ip =
          if current.metadata.resource_version == ""
          then desired.cluster_ip
          else current.cluster_ip;
      ports = keep_assigned_node_ports current.ports desired.ports;
      selector = desired.selector;
      publish_not_ready_addresses = desired.publish_not_ready_addresses;
    })

  -- The claim templates, the selector and the service name of an existing StatefulSet stay.
  unfoldable pub mutate_spec : String → (desired current : StatefulSetSpec) → StatefulSetSpec
  mutate_spec resource_version desired current =
      if resource_version == "" then desired else record current {
        replicas = desired.replicas;
        template = desired.template;
        update_strategy = desired.update_strategy;
        claim_retention = desired.claim_retention;
      }

  unfoldable pub mutate_stateful_set : (desired current : StatefulSet) → Result StatefulSet
  mutate_stateful_set desired current = do
    let merged = merge_maps current.metadata.labels desired.metadata.labels
    m ← owned (record (current.metadata) { labels = merged })
    ok (record current {
      metadata = m;
      spec = mutate_spec current.metadata.resource_version desired.spec current.spec;
    })

  unfoldable pub mutate_network_policy : (desired current : NetworkPolicy) → Result NetworkPolicy
  mutate_network_policy desired current = do
    let merged = merge_maps current.metadata.labels desired.metadata.labels
    m ← owned (record (current.metadata) { labels = merged })
    ok (record desired { metadata = m })
