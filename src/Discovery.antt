-- ===== src/Discovery.antt =====
-- pkg/upgrade/discovery.go and pkg/upgrade/wellknown.go: the role, the provider and the group of a
-- node. The provider ID of a node is taken to be ASCII text.
pub mod Groups
pub mod Versions
use kubernetes_upgrade_opera.Base.{
  String, str_eq, has_prefix, trim_prefix, first_part, drop_last, Bool, true, false, ◌||◌, Option,
  none, some, List, [], ◌∷◌, if◌then◌else◌,
}
use kubernetes_upgrade_opera.Result.{}
use kubernetes_upgrade_opera.Core.{Labels, LabelSelector, lookup, label_or_empty, Node}
use kubernetes_upgrade_opera.Types.{
  Role, control_plane, worker, ProviderType, kubeadm, aws_eks, aws_asg, linode_lke, generic,
  other_provider, ProviderRef, UpgradeScope,
}
use kubernetes_upgrade_opera.Version.{Semver, compare_versions}

abbrev eks_node_group_label : String
eks_node_group_label = "eks.amazonaws.com/nodegroup"

abbrev eks_cluster_name_label : String
eks_cluster_name_label = "alpha.eksctl.io/cluster-name"

abbrev linode_lke_pool_label : String
linode_lke_pool_label = "lke.linode.com/pool-id"

abbrev linode_lke_cluster_id_label : String
linode_lke_cluster_id_label = "lke.linode.com/clusterid"

abbrev provider_override_annotation : String
provider_override_annotation = "upgrade.k8s-upgrade-operator/provider-override"

abbrev pub control_plane_group_name : String
control_plane_group_name = "control-plane"

abbrev default_worker_group_name : String
default_worker_group_name = "workers"

abbrev pub control_plane_label_key : String
control_plane_label_key = "node-role.kubernetes.io/control-plane"

abbrev pub legacy_control_plane_label_key : String
legacy_control_plane_label_key = "node-role.kubernetes.io/master"

pub record DiscoveredGroup : Type 0 where
  pub name : String
  pub role : Role
  pub provider : ProviderType
  pub provider_ref : Option ProviderRef
  pub heuristic : Bool
  pub nodes : List String

unfoldable pub classify_role : Node → Role
unfolding lookup
classify_role node = elim (lookup node.labels control_plane_label_key) [
  | some _ ↦ control_plane
  | none ↦ elim (lookup node.labels legacy_control_plane_label_key) [
    | some _ ↦ control_plane
    | none ↦ worker
  ]
]

-- upgradev1alpha1.ProviderType(s), with the declared constants of nodegroupupgrade_types.go
unfoldable pub provider_type : String → ProviderType
provider_type s =
    if str_eq s "Kubeadm"
    then kubeadm
    else if str_eq s "AWSEKSManagedNodeGroup"
    then aws_eks
    else if str_eq s "AWSAutoScalingGroup"
    then aws_asg
    else if str_eq s "LinodeLKE"
    then linode_lke
    else if str_eq s "Generic"
    then generic
    else other_provider s

abbrev pub is_known_provider : ProviderType → Bool
is_known_provider (other_provider p) = false
is_known_provider _ = true

unfoldable pub region_from_aws_provider_id : String → String
region_from_aws_provider_id provider_id =
    drop_last (first_part 0x2f (trim_prefix provider_id "aws:///"))

abbrev eks_ref : Node → String → ProviderRef
unfolding region_from_aws_provider_id label_or_empty
eks_ref node ng = record {
  aws_eks = some (record {
    cluster_name = label_or_empty node.labels eks_cluster_name_label;
    node_group_name = ng;
    region = region_from_aws_provider_id node.provider_id;
  });
  aws_asg = none;
  linode_lke = none;
}

abbrev asg_ref : Node → ProviderRef
unfolding region_from_aws_provider_id
asg_ref node = record {
  aws_eks = none;
  aws_asg = some (record { asg_name = ""; region = region_from_aws_provider_id node.provider_id });
  linode_lke = none;
}

abbrev lke_ref : Node → String → ProviderRef
unfolding label_or_empty
lke_ref node pool = record {
  aws_eks = none;
  aws_asg = none;
  linode_lke = some (record {
    cluster_id = label_or_empty node.labels linode_lke_cluster_id_label;
    pool_id = pool;
  });
}

-- `classifyProvider` behind the override annotation
by_provider_id : Node → ProviderType × Option ProviderRef × Bool
unfolding eks_ref asg_ref lke_ref lookup has_prefix
by_provider_id node =
    let otherwise =
      if str_eq node.provider_id "" then (kubeadm, none, false) else (generic, none, false) in
    if has_prefix node.provider_id "aws:///"
    then elim (lookup node.labels eks_node_group_label) [
      | some ng ↦ (aws_eks, some (eks_ref node ng), false)
      | none ↦ (aws_asg, some (asg_ref node), true)
    ]
    else if has_prefix node.provider_id "linode://"
    then elim (lookup node.labels linode_lke_pool_label) [
      | some pool ↦ (linode_lke, some (lke_ref node pool), false)
      | none ↦ otherwise
    ]
    else otherwise

unfoldable pub classify_provider : Node → ProviderType × Option ProviderRef × Bool
unfolding by_provider_id provider_type lookup
classify_provider node = elim (lookup node.annotations provider_override_annotation) [
  | none ↦ by_provider_id node
  | some override ↦
      if is_known_provider (provider_type override)
      then (provider_type override, none, false)
      else by_provider_id node
]

sanitize_group_name : String → String
sanitize_group_name s = if str_eq s "" then default_worker_group_name else s

unfoldable pub group_name : Role → ProviderType → Node → String
unfolding sanitize_group_name label_or_empty
group_name control_plane provider node = control_plane_group_name
group_name worker aws_eks node =
    sanitize_group_name (label_or_empty node.labels eks_node_group_label)
group_name worker linode_lke node =
    sanitize_group_name (label_or_empty node.labels linode_lke_pool_label)
group_name worker provider node = default_worker_group_name
