-- ===== src/Adapter.antt =====
-- pkg/provider: the interface of the adapters, their registry, and the adapters that are not yet
-- implemented (pkg/provider/awseks, pkg/provider/awsasg, pkg/provider/linodelke).
pub mod Quiet
pub mod Generic
use kubernetes_upgrade_opera.Base.{
  String, Bool, true, false, ◌||◌, Option, none, some, List, [], ◌∷◌, map, if◌then◌else◌, str_eq,
}
use kubernetes_upgrade_opera.Result.{Error, not_implemented}
use kubernetes_upgrade_opera.Core.{Node}
use kubernetes_upgrade_opera.Types.{
  ProviderType, kubeadm, aws_eks, aws_asg, linode_lke, generic, other_provider, Strategy, in_place,
  replace, NodeGroupUpgrade,
}
use kubernetes_upgrade_opera.Cluster.{
  Run, raise, note, adapter_precheck, adapter_begin, adapter_poll, adapter_verify, ◌>>=◌, ◌>>◌,
}

-- NodePhase
pub data NodePhase : Type 0 where
  in_progress upgraded failed : NodePhase

pub record NodeResult : Type 0 where
  pub node_name : String
  pub phase : NodePhase
  pub error : Option Error

-- The interface Adapter. Of the UpgradeContext the adapters read the group; the target version is
-- the group's, and the client is the cluster that a `Run` acts on.
pub record Adapter : Type 0 where
  pub kind : ProviderType
  pub supports_strategy : Strategy → Bool
  pub precheck : NodeGroupUpgrade → Run (Bool × String)
  pub begin_batch : NodeGroupUpgrade → List Node → Run (Unit {0})
  pub poll_batch : NodeGroupUpgrade → List Node → Run (List NodeResult)
  pub verify : NodeGroupUpgrade → Run (Bool × String)

abbrev pub same_provider : ProviderType → ProviderType → Bool
same_provider kubeadm kubeadm = true
same_provider aws_eks aws_eks = true
same_provider aws_asg aws_asg = true
same_provider linode_lke linode_lke = true
same_provider generic generic = true
same_provider (other_provider a) (other_provider b) = str_eq a b
same_provider _ _ = false

abbrev pub same_strategy : Strategy → Strategy → Bool
same_strategy in_place in_place = true
same_strategy replace replace = true
same_strategy in_place replace = false
same_strategy replace in_place = false

-- Registry, with one adapter for each provider type
abbrev pub Registry : Type 0
Registry = List (ProviderType × Adapter)

unfoldable pub new_registry : Registry
new_registry = []

unfoldable pub put_adapter : ProviderType → Adapter → Registry → Registry
put_adapter t a [] = (t, a) ∷ []
put_adapter t a ((u, b) ∷ r) = if same_provider u t then (u, a) ∷ r else (u, b) ∷ put_adapter t a r

-- (*Registry).Register; the metrics of the wrapper are left out
unfoldable pub register : Registry → Adapter → Registry
unfolding put_adapter
register r a = put_adapter a.kind a r

-- (*Registry).Get
unfoldable pub get_adapter : Registry → ProviderType → Option Adapter
get_adapter [] t = none
get_adapter ((u, a) ∷ r) t = if same_provider u t then some a else get_adapter r t

-- An adapter whose four operations all report ErrNotImplemented.
abbrev pub placeholder : ProviderType → (Strategy → Bool) → Adapter
placeholder t supports = record {
  kind = t;
  supports_strategy = supports;
  precheck = λ ng. raise not_implemented;
  begin_batch = λ ng batch. raise not_implemented;
  poll_batch = λ ng batch. raise not_implemented;
  verify = λ ng. raise not_implemented;
}

unfoldable pub aws_eks_adapter : Adapter
aws_eks_adapter = placeholder aws_eks (λ s. same_strategy s replace)

unfoldable pub aws_asg_adapter : Adapter
aws_asg_adapter = placeholder aws_asg (λ s. same_strategy s replace || same_strategy s in_place)

unfoldable pub linode_lke_adapter : Adapter
linode_lke_adapter = placeholder linode_lke (λ s. same_strategy s replace)
