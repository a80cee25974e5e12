-- ===== src/Resources.antt =====
-- internal/resources: the Kubernetes objects that make up one SereneDB server, a module to a file.
pub mod Names
pub mod Config
pub mod Service
pub mod Secret
pub mod Snapshot
pub mod Pod
pub mod StatefulSet
pub mod NetworkPolicy
