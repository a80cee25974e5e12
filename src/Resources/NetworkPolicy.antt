-- ===== src/Resources/NetworkPolicy.antt =====
-- internal/resources/networkpolicy.go: an ingress policy that admits only the serving ports.
use serenedb_operator.Prelude.{[], ◌∷◌, map}
use serenedb_operator.Api.Meta.{new_meta}
use serenedb_operator.Api.Core.{NetworkPolicy, ServicePort, PolicyPort}
use serenedb_operator.Api.SereneDb.{SereneDb}
use serenedb_operator.Resources.Names.{name, labels, selector_labels}
use serenedb_operator.Resources.Service.{service_ports}

unfoldable pub policy_port : ServicePort → PolicyPort
policy_port p = record { protocol = "TCP"; port = p.port }

unfoldable pub network_policy : SereneDb → NetworkPolicy
unfolding policy_port
network_policy db = record {
  metadata = new_meta (name db) db.metadata.namespace (labels db);
  pod_selector = selector_labels db;
  policy_types = "Ingress" ∷ [];
  ingress_ports = map policy_port (service_ports db);
}
