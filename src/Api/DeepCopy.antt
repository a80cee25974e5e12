-- ===== src/Api/DeepCopy.antt =====
-- api/v1alpha1/zz_generated.deepcopy.go: the deep copies of the API types, over Go's memory.
pub mod Memory
pub mod Reads
pub mod Copiers
pub mod Growth
pub mod Deep
pub mod Structs
pub mod Objects
pub mod Dependents
pub mod Databases
pub mod Roles
pub mod Secrets
pub mod Backups
pub mod Schedules
pub mod ServerParts
pub mod Server
pub mod Registry
