-- ===== src/Tests/Server.antt =====
-- Examples of the SereneDB itself: its resources, their updates and its status.
use serenedb_operator.Prelude.{
  false, ℕ, suc, ◌≡◌, refl, String, true, some, ◌∷◌, List, [], map, All,
}
use serenedb_operator.Prelude.Dict.{lookup}
use serenedb_operator.Errors.{ok}
use serenedb_operator.Api.Meta.{condition_ready, condition_progressing}
use serenedb_operator.Api.Core.{ServicePort, StatefulSet}
use serenedb_operator.Resources.Names.{selector_labels}
use serenedb_operator.Resources.Service.{service}
use serenedb_operator.Resources.NetworkPolicy.{network_policy}
use serenedb_operator.Resources.StatefulSet.{stateful_set}
use serenedb_operator.Resources.Pod.{container_ports, volume_mounts}
use serenedb_operator.Resources.Pod.Laws.{
  ports_agree, pod_labels_override, volume_mounts_have_volumes, has_volume,
}
use serenedb_operator.Controller.Trace.{is_panic, count_of, is_status_patch}
use serenedb_operator.Controller.Server.{reconcile_object}
use serenedb_operator.Controller.Server.Laws.{reconcile_object_reports}
use serenedb_operator.Controller.Server.Secrets.{generated_found}
use serenedb_operator.Controller.Server.Secrets.Laws.{generated_found_keeps, KeepsSecret}
use serenedb_operator.Controller.Server.Status.{describe}
use serenedb_operator.Controller.Server.Status.Laws.{
  describe_conditions, condition_holds, serves, in_progress,
}
use serenedb_operator.Controller.Server.Mutate.{keep_assigned_node_ports}
use serenedb_operator.Controller.Server.Mutate.Laws.{keep_assigned_node_ports_keeps, with_port_of}
use serenedb_operator.Tests.World.{
  env-DrawsBelow, env, library, library-IsConditions, db, password_secret,
}

ports_agree_example :
    (map {B = String × ℕ} (λ p. (p.target_port, p.port)) (service db).ports
      ≡ map {B = String × ℕ} (λ p. (p.name, p.container_port)) (container_ports db))
    × (map (λ p. p.port) (network_policy db).ingress_ports
        ≡ map (λ p. p.container_port) (container_ports db))
ports_agree_example = ports_agree db

pod_labels_override_example :
    (lookup "app.kubernetes.io/instance" (stateful_set db "digest").spec.template.labels
      ≡ some "other")
    × (lookup "app.kubernetes.io/instance" (stateful_set db "digest").spec.selector
        ≡ lookup "app.kubernetes.io/instance" (selector_labels db))
unfolding lookup
pod_labels_override_example =
    pod_labels_override db "digest" "app.kubernetes.io/instance" "other" (refl, tt) refl

volume_mounts_have_volumes_example :
    All (λ m. has_volume m.name db "digest" ≡ true) (volume_mounts db)
volume_mounts_have_volumes_example = volume_mounts_have_volumes db "digest"

abbrev running : StatefulSet
running =
    let base = stateful_set db "digest" in
    record base {
      metadata = record (base.metadata) { generation = 3; resource_version = "12" };
      status = record {
        observed_generation = 3;
        ready_replicas = 1;
        updated_replicas = 1;
        current_revision = "a";
        update_revision = "a";
      };
    }

describe_conditions_example :
    (condition_holds library library-IsConditions (describe library db (ok running)) condition_ready
      ≡ serves (ok running))
    × (condition_holds library library-IsConditions
          (describe library db (ok running))
          condition_progressing
        ≡ in_progress (ok running))
describe_conditions_example = describe_conditions library library-IsConditions db (ok running)

reconcile_object_reports_example :
    (count_of is_status_patch (reconcile_object env db []).1 ≡ suc (count_of is_status_patch []))
    × (is_panic (reconcile_object env db []).0 ≡ false)
reconcile_object_reports_example = reconcile_object_reports env env-DrawsBelow db [] refl

abbrev port_of : String → ℕ → ServicePort
port_of name node_port = record {
  name = name;
  port = 7890;
  target_port = name;
  protocol = "TCP";
  node_port = node_port;
}

abbrev current_ports : List ServicePort
current_ports = port_of "postgres" 31000 ∷ []

abbrev desired_ports : List ServicePort
desired_ports = port_of "postgres" 0 ∷ port_of "http" 0 ∷ []

keep_assigned_node_ports_keeps_example :
    (keep_assigned_node_ports current_ports desired_ports
      ≡ map (with_port_of current_ports) desired_ports)
    × (keep_assigned_node_ports (keep_assigned_node_ports current_ports desired_ports) desired_ports
        ≡ keep_assigned_node_ports current_ports desired_ports)
keep_assigned_node_ports_keeps_example =
    keep_assigned_node_ports_keeps current_ports desired_ports (tt, tt) ((refl, tt), (tt, tt))

generated_found_keeps_example :
    KeepsSecret env password_secret [] (generated_found env db (ok password_secret) []).1
generated_found_keeps_example = generated_found_keeps env db password_secret []
