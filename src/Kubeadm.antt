-- ===== src/Kubeadm.antt =====
-- pkg/provider/kubeadm: the adapter that upgrades nodes in place, by a privileged Job for each node.
pub mod Calls
pub mod Executor
pub mod EtcdQuorum
pub mod Adapter
