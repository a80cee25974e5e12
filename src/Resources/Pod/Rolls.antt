-- ===== src/Resources/Pod/Rolls.antt =====
-- internal/resources/statefulset.go and configmap.go: the pods are rolled when the configuration changes.
use serenedb_operator.Prelude.{◌≡◌, sym, ◌∙◌, ap, String, Option, none, some, get_or}
use serenedb_operator.Prelude.Dict.{lookup}
use serenedb_operator.Prelude.Dict.Laws.{IsDistinct}
use serenedb_operator.Api.SereneDb.{SereneDb}
use serenedb_operator.Resources.Config.{config_map, config_hash, digest_input}
use serenedb_operator.Resources.Config.Digest.{IsPlain, digest_input_inj}
use serenedb_operator.Resources.Names.{config_hash_annotation}
use serenedb_operator.Resources.Pod.{pod_template}
use serenedb_operator.Resources.Pod.Laws.{config_hash_annotated}

module _ (sha256_hex : String → String) where
  -- The annotation that the pods of a SereneDB carry.
  abbrev pub annotation_of : SereneDb → Option String
  annotation_of db =
      lookup config_hash_annotation
        (pod_template db (config_hash sha256_hex (config_map db))).annotations

  -- Two SereneDBs whose pods carry the same annotation have the same configuration, key for key, where no
  -- configuration holds a NUL, `podAnnotations` has distinct keys and not the operator's, and
  -- SHA-256 does not collide on the two texts: so no change of the configuration leaves the pod
  -- template as it was.
  pub pod_template_rolls :
      (db db' : SereneDb)
      → IsPlain (config_map db).content
      → IsPlain (config_map db').content
      → IsDistinct db.spec.pod_annotations
      → IsDistinct db'.spec.pod_annotations
      → lookup config_hash_annotation db.spec.pod_annotations ≡ none
      → lookup config_hash_annotation db'.spec.pod_annotations ≡ none
      → (sha256_hex (digest_input (config_map db).content)
            ≡ sha256_hex (digest_input (config_map db').content)
          → digest_input (config_map db).content ≡ digest_input (config_map db').content)
      → annotation_of db ≡ annotation_of db'
      → (k : String) → lookup k (config_map db).content ≡ lookup k (config_map db').content
  unfolding config_hash
  pod_template_rolls db db' plain plain' d d' fresh fresh' apart e =
      let hash = config_hash sha256_hex (config_map db) in
      let hash' = config_hash sha256_hex (config_map db') in
      let same : some hash ≡ some hash' =
        sym (config_hash_annotated db hash d fresh)
        ∙ e
        ∙ config_hash_annotated db' hash' d' fresh' in
      digest_input_inj (config_map db).content (config_map db').content plain plain'
        (apart (ap (get_or "") same))
