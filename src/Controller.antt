-- ===== src/Controller.antt =====
-- internal/controller: the reconcilers, over the interface to what they call.
pub mod Kube
pub mod Op
pub mod Trace
pub mod Session
pub mod Finalize
pub mod Outcome
pub mod Database
pub mod Role
pub mod ServerSecret
pub mod Backup
pub mod Schedule
pub mod Server
pub mod Total
pub mod Every
