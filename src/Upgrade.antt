-- ===== src/Upgrade.antt =====
-- internal/controller/kubernetesupgrade_*.go: the controller of a cluster upgrade.
pub mod Calls
pub mod Lease
pub mod Status
pub mod Child
pub mod Discovering
pub mod Phases
pub mod Postchecks
pub mod Reconcile
pub mod Course
pub mod Lawful
pub mod Promises
pub mod Stored
pub mod Idle
