-- ===== src/NodeGroup.antt =====
-- internal/controller/nodegroupupgrade_*.go: the controller of one node group.
--
-- The in-memory object of a reconcile is the record `ng`; what is stored is what `write_status` was
-- called with. A handler is a `Run` of the cluster. Metrics and log lines are left out.
pub mod Progress
pub mod Invariant
pub mod Draining
pub mod Upgrading
pub mod Verifying
pub mod Reconcile
pub mod Stored
pub mod Counts
