-- ===== src/Resources/Service.antt =====
-- internal/resources/service.go: the client Service and the headless Service.
use serenedb_operator.Prelude.{
  ℕ, String, true, false, List, [], ◌∷◌, not, ◌&&◌, ◌==ℕ◌, ◌==◌, if◌then◌else◌, take, non_empty_or,
}
use serenedb_operator.Api.Meta.{new_meta}
use serenedb_operator.Api.Core.{Service, ServicePort}
use serenedb_operator.Api.SereneDb.{SereneDb}
use serenedb_operator.Resources.Names.{
  name, labels, selector_labels, headless_service_name, postgres_port, http_port,
  postgres_port_name, http_port_name,
}

-- pg-wire first, and HTTP when enabled.
unfoldable pub service_ports : SereneDb → List ServicePort
service_ports db =
    let pg : ServicePort = record {
      name = postgres_port_name;
      port = postgres_port db;
      target_port = postgres_port_name;
      protocol = "TCP";
      node_port = 0;
    } in
    let web : ServicePort = record {
      name = http_port_name;
      port = http_port db;
      target_port = http_port_name;
      protocol = "TCP";
      node_port = 0;
    } in
    if db.spec.listeners.http.enabled then pg ∷ web ∷ [] else pg ∷ []

unfoldable pub service_type : SereneDb → String
service_type db = non_empty_or db.spec.service.service_type "ClusterIP"

-- `svc.Spec.Ports[0].NodePort = n`; the list is never empty.
unfoldable pub pin_node_port : ℕ → List ServicePort → List ServicePort
pin_node_port n [] = []
pin_node_port n (p ∷ ports) = (record p { node_port = n }) ∷ ports

unfoldable pub service : SereneDb → Service
unfolding service_ports service_type pin_node_port
service db =
    let base = new_meta (name db) db.metadata.namespace (labels db) in
    record {
      metadata = record base { annotations = db.spec.service.annotations };
      service_type = service_type db;
      cluster_ip = "";
      ports =
          if service_type db == "NodePort" && not (db.spec.service.node_port ==ℕ 0)
          then pin_node_port db.spec.service.node_port (service_ports db)
          else service_ports db;
      selector = selector_labels db;
      publish_not_ready_addresses = false;
    }

unfoldable pub headless_service : SereneDb → Service
unfolding service_ports
headless_service db = record {
  metadata = new_meta (headless_service_name db) db.metadata.namespace (labels db);
  service_type = "";
  cluster_ip = "None";
  ports = take 1 (service_ports db);
  selector = selector_labels db;
  publish_not_ready_addresses = true;
}
