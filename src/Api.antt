-- ===== src/Api.antt =====
-- api/v1alpha1: the custom resources, and the shapes of the Kubernetes objects that the operator
-- reads and writes, with the fields that it uses.
pub mod Meta
pub mod Core
pub mod SereneDb
pub mod Dependents
pub mod Backups
pub mod DeepCopy
