-- ===== src/Resources/Pod/Laws.antt =====
-- How the resources of one SereneDB fit together (internal/resources/).
use serenedb_operator.Prelude.{
  ℕ, ◌≡◌, refl, String, Bool, true, none, some, [], ◌∷◌, map, arith, ◌==◌, All, any, ◌||◌,
  Bool-cases, inl, inr,
}
use serenedb_operator.Prelude.Dict.{lookup}
use serenedb_operator.Prelude.Dict.Laws.{IsDistinct, lookup-copy}
use serenedb_operator.Api.SereneDb.{SereneDb}
use serenedb_operator.Resources.Names.{selector_labels, config_hash_annotation}
use serenedb_operator.Resources.Pod.{container_ports, pod_template, volumes, volume_mounts}
use serenedb_operator.Resources.Service.{service_ports, service, pin_node_port}
use serenedb_operator.Resources.StatefulSet.{stateful_set, volume_claim_template}
use serenedb_operator.Resources.NetworkPolicy.{network_policy, policy_port}

-- The container, the Service and the NetworkPolicy serve the same ports: each port of the Service names
-- the port of the container that has its number, and the policy admits just those numbers.
pub ports_agree :
    (db : SereneDb)
    → (map {B = String × ℕ} (λ p. (p.target_port, p.port)) (service db).ports
        ≡ map {B = String × ℕ} (λ p. (p.name, p.container_port)) (container_ports db))
      × (map (λ p. p.port) (network_policy db).ingress_ports
          ≡ map (λ p. p.container_port) (container_ports db))
unfolding service service_ports pin_node_port container_ports network_policy policy_port
ports_agree db = (ground arith, ground arith)

-- A label of the selector is a label of the pods, where `podLabels`, whose keys are distinct, has
-- none of that key.
pod_template_selected :
    (db : SereneDb) (config_hash key value : String)
    → IsDistinct db.spec.pod_labels
    → lookup key (selector_labels db) ≡ some value
    → lookup key db.spec.pod_labels ≡ none
    → lookup key (pod_template db config_hash).labels ≡ some value
unfolding pod_template
pod_template_selected db config_hash key value d h fresh =
    ground (arith, lookup-copy key (selector_labels db) db.spec.pod_labels d)

-- A label of `podLabels`, whose keys are distinct, is a label of the pods of the StatefulSet, while
-- the selector of the StatefulSet holds the operator's own value at that key, if any.
pub pod_labels_override :
    (db : SereneDb) (config_hash key value : String)
    → IsDistinct db.spec.pod_labels
    → lookup key db.spec.pod_labels ≡ some value
    → (lookup key (stateful_set db config_hash).spec.template.labels ≡ some value)
      × (lookup key (stateful_set db config_hash).spec.selector ≡ lookup key (selector_labels db))
unfolding stateful_set pod_template
pod_labels_override db config_hash key value d h =
    (ground (arith, lookup-copy key (selector_labels db) db.spec.pod_labels d), ground arith)

-- The digest of the configuration is an annotation of the pods, where `podAnnotations`, whose keys
-- are distinct, does not set the operator's key.
pub config_hash_annotated :
    (db : SereneDb) (config_hash : String)
    → IsDistinct db.spec.pod_annotations
    → lookup config_hash_annotation db.spec.pod_annotations ≡ none
    → lookup config_hash_annotation (pod_template db config_hash).annotations ≡ some config_hash
unfolding pod_template lookup
config_hash_annotated db config_hash d fresh = ground (
  arith,
  lookup-copy config_hash_annotation ((config_hash_annotation, config_hash) ∷ [])
      db.spec.pod_annotations d,
)

-- Whether a name is among those of the volumes of the pod and of the claim templates.
abbrev pub has_volume : String → SereneDb → String → Bool
has_volume n db config_hash =
    any (λ v. v.name == n) (volumes db)
    || any (λ c. c.name == n) (stateful_set db config_hash).spec.volume_claim_templates

-- Every mount of the container has its volume: in the pod, or, for the data volume where no claim is
-- named, in the claim templates of the StatefulSet.
pub volume_mounts_have_volumes :
    (db : SereneDb) (config_hash : String)
    → All (λ m. has_volume m.name db config_hash ≡ true) (volume_mounts db)
unfolding volume_mounts volumes stateful_set volume_claim_template
volume_mounts_have_volumes db config_hash = elim (Bool-cases db.spec.tls.enabled) [
  | inl t ↦ elim (Bool-cases (db.spec.persistence.existing_claim == "")) [
    | inl c ↦ rw (t, c) (refl, (refl, (refl, tt)))
    | inr c ↦ rw (t, c) (refl, (refl, (refl, tt)))
  ]
  | inr t ↦ elim (Bool-cases (db.spec.persistence.existing_claim == "")) [
    | inl c ↦ rw (t, c) (refl, (refl, tt))
    | inr c ↦ rw (t, c) (refl, (refl, tt))
  ]
]
