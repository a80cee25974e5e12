-- ===== src/Tests.antt =====
-- Examples: the theorems at concrete inputs.
mod World
mod Copies
mod Apply
mod Roles
mod Server
mod Backups
mod Lifecycle
mod Passwords
mod Total
mod Wire
mod Wiring
mod Converge
mod Config
mod Statements
