-- ===== src/Api/DeepCopy/ServerParts.antt =====
-- api/v1alpha1/serenedb_types.go: the parts of the server's specification, as Go types over
-- memory, with their functions in zz_generated.deepcopy.go. A type of another package that the
-- generated code assigns has no references, and is plain.
pub mod Laws
use serenedb_operator.Api.DeepCopy.Copiers.{
  slice_into, mapping_into, struct_into, deep_copy, assign, Imports, Copier,
}
use serenedb_operator.Api.DeepCopy.Memory.{slice, pointer, struct_of, Shape, plain, mapping}
use serenedb_operator.Prelude.{String, refl}
use mathlib.Core.List.{[], ◌∷◌}

unfoldable pub image_spec_shape : Shape
image_spec_shape = struct_of (("Repository", plain) ∷ ("Tag", plain) ∷ ("PullPolicy", plain) ∷ [])

unfoldable pub image_spec_deep_copy_into : Copier
image_spec_deep_copy_into = assign

unfoldable pub image_spec_deep_copy : Copier
image_spec_deep_copy = deep_copy image_spec_deep_copy_into

unfoldable pub auth_spec_shape : Shape
auth_spec_shape = struct_of (("ExistingSecret", plain) ∷ ("PasswordKey", plain) ∷ [])

unfoldable pub auth_spec_deep_copy_into : Copier
auth_spec_deep_copy_into = assign

unfoldable pub auth_spec_deep_copy : Copier
auth_spec_deep_copy = deep_copy auth_spec_deep_copy_into

unfoldable pub postgres_listener_spec_shape : Shape
postgres_listener_spec_shape = struct_of (("Port", plain) ∷ ("SSLMode", plain) ∷ [])

unfoldable pub postgres_listener_spec_deep_copy_into : Copier
postgres_listener_spec_deep_copy_into = assign

unfoldable pub postgres_listener_spec_deep_copy : Copier
postgres_listener_spec_deep_copy = deep_copy postgres_listener_spec_deep_copy_into

unfoldable pub http_listener_spec_shape : Shape
http_listener_spec_shape =
    struct_of (("Enabled", plain) ∷ ("Port", plain) ∷ ("CORSOrigins", plain) ∷ [])

unfoldable pub http_listener_spec_deep_copy_into : Copier
http_listener_spec_deep_copy_into = assign

unfoldable pub http_listener_spec_deep_copy : Copier
http_listener_spec_deep_copy = deep_copy http_listener_spec_deep_copy_into

unfoldable pub listeners_spec_shape : Shape
listeners_spec_shape =
    struct_of (("Postgres", postgres_listener_spec_shape) ∷ ("HTTP", http_listener_spec_shape) ∷ [])

unfoldable pub listeners_spec_deep_copy_into : Copier
listeners_spec_deep_copy_into = struct_into (("Postgres", assign) ∷ ("HTTP", assign) ∷ [])

unfoldable pub listeners_spec_deep_copy : Copier
listeners_spec_deep_copy = deep_copy listeners_spec_deep_copy_into

unfoldable pub tls_spec_shape : Shape
tls_spec_shape = struct_of (("Enabled", plain) ∷ ("SecretName", plain) ∷ ("MinVersion", plain) ∷ [])

unfoldable pub tls_spec_deep_copy_into : Copier
tls_spec_deep_copy_into = assign

unfoldable pub tls_spec_deep_copy : Copier
tls_spec_deep_copy = deep_copy tls_spec_deep_copy_into

unfoldable pub config_spec_shape : Shape
config_spec_shape = struct_of (
    ("LogLevel", plain)
    ∷ ("MaxConnections", plain)
    ∷ ("CPUThreads", plain)
    ∷ ("IOThreads", plain)
    ∷ ("BackgroundThreads", plain)
    ∷ ("AuthTimeout", plain)
    ∷ ("IdleSessionTimeout", plain)
    ∷ ("PGMaxMessageBytes", plain)
    ∷ ("HBA", plain)
    ∷ ("ExtraFlags", slice plain)
    ∷ [])

unfoldable pub config_spec_deep_copy_into : Copier
config_spec_deep_copy_into = struct_into (("ExtraFlags", slice_into assign) ∷ [])

unfoldable pub config_spec_deep_copy : Copier
config_spec_deep_copy = deep_copy config_spec_deep_copy_into

unfoldable pub retention_policy_spec_shape : Shape
retention_policy_spec_shape = struct_of (("WhenDeleted", plain) ∷ ("WhenScaled", plain) ∷ [])

unfoldable pub retention_policy_spec_deep_copy_into : Copier
retention_policy_spec_deep_copy_into = assign

unfoldable pub retention_policy_spec_deep_copy : Copier
retention_policy_spec_deep_copy = deep_copy retention_policy_spec_deep_copy_into

unfoldable pub persistence_spec_shape : Imports → Shape
persistence_spec_shape i = struct_of (
    ("Size", pointer (i.shape_of "resource.Quantity"))
    ∷ ("StorageClassName", pointer plain)
    ∷ ("AccessModes", slice plain)
    ∷ ("ExistingClaim", plain)
    ∷ ("RetentionPolicy", retention_policy_spec_shape)
    ∷ [])

unfoldable pub persistence_spec_deep_copy_into : Imports → Copier
persistence_spec_deep_copy_into i = struct_into (
    ("Size", deep_copy (i.into_of "resource.Quantity"))
    ∷ ("StorageClassName", deep_copy assign)
    ∷ ("AccessModes", slice_into assign)
    ∷ ("RetentionPolicy", assign)
    ∷ [])

unfoldable pub persistence_spec_deep_copy : Imports → Copier
persistence_spec_deep_copy i = deep_copy (persistence_spec_deep_copy_into i)

unfoldable pub service_spec_shape : Shape
service_spec_shape =
    struct_of (("Type", plain) ∷ ("NodePort", plain) ∷ ("Annotations", mapping) ∷ [])

unfoldable pub service_spec_deep_copy_into : Copier
service_spec_deep_copy_into = struct_into (("Annotations", mapping_into) ∷ [])

unfoldable pub service_spec_deep_copy : Copier
service_spec_deep_copy = deep_copy service_spec_deep_copy_into

unfoldable pub network_policy_spec_shape : Shape
network_policy_spec_shape = struct_of (("Enabled", plain) ∷ [])

unfoldable pub network_policy_spec_deep_copy_into : Copier
network_policy_spec_deep_copy_into = assign

unfoldable pub network_policy_spec_deep_copy : Copier
network_policy_spec_deep_copy = deep_copy network_policy_spec_deep_copy_into

unfoldable pub bootstrap_spec_shape : Shape
bootstrap_spec_shape = struct_of (("VolumeSnapshotName", plain) ∷ [])

unfoldable pub bootstrap_spec_deep_copy_into : Copier
bootstrap_spec_deep_copy_into = assign

unfoldable pub bootstrap_spec_deep_copy : Copier
bootstrap_spec_deep_copy = deep_copy bootstrap_spec_deep_copy_into
