-- ===== src/Providers.antt =====
-- provider.DefaultRegistry: the registry that the init functions of the adapters' packages fill.
pub mod Keeps
use kubernetes_upgrade_opera.Cluster.{Env}
use kubernetes_upgrade_opera.Adapter.{
  Registry, new_registry, register, put_adapter, aws_asg_adapter, aws_eks_adapter,
  linode_lke_adapter,
}
use kubernetes_upgrade_opera.Adapter.Generic.{generic_adapter}
use kubernetes_upgrade_opera.Kubeadm.Calls.{ExecutorEnv}
use kubernetes_upgrade_opera.Kubeadm.Adapter.{kubeadm_adapter}

-- in the order in which the packages are initialised; the generic adapter holds a kubeadm adapter
unfoldable pub default_registry : ExecutorEnv → Env → Registry
unfolding register put_adapter new_registry aws_asg_adapter aws_eks_adapter kubeadm_adapter
    generic_adapter linode_lke_adapter
default_registry executor env =
    register
      (register
        (register (register (register new_registry aws_asg_adapter) aws_eks_adapter)
          (kubeadm_adapter executor))
        (generic_adapter env (kubeadm_adapter executor)))
      linode_lke_adapter
