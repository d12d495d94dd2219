-- ===== src/Children.antt =====
-- pkg/upgrade/reconcile_children.go: the strategy of a group, and which children may be deleted.
pub mod Laws
pub mod Supported
use kubernetes_upgrade_opera.Base.{
  String, Bool, true, false, Option, none, some, List, [], ◌∷◌, if◌then◌else◌,
}
use kubernetes_upgrade_opera.Types.{
  Role, control_plane, worker, ProviderType, kubeadm, aws_eks, aws_asg, linode_lke, generic,
  other_provider, Strategy, in_place, replace, NodeGroupOverride, GroupPhase,
}
use kubernetes_upgrade_opera.Batches.{Flags, flag, set_flag}
use kubernetes_upgrade_opera.Discovery.{DiscoveredGroup}

unfoldable pub default_strategy_for_provider : ProviderType → Strategy
default_strategy_for_provider aws_eks = replace
default_strategy_for_provider linode_lke = replace
default_strategy_for_provider aws_asg = replace
default_strategy_for_provider kubeadm = in_place
default_strategy_for_provider generic = in_place
default_strategy_for_provider (other_provider p) = in_place

unfoldable pub is_strategy_allowed_for_provider : ProviderType → Strategy → Bool → Bool
is_strategy_allowed_for_provider aws_eks replace ack = true
is_strategy_allowed_for_provider aws_eks in_place ack = false
is_strategy_allowed_for_provider linode_lke replace ack = true
is_strategy_allowed_for_provider linode_lke in_place ack = false
is_strategy_allowed_for_provider generic replace ack = ack
is_strategy_allowed_for_provider generic in_place ack = true
is_strategy_allowed_for_provider kubeadm s ack = true
is_strategy_allowed_for_provider aws_asg s ack = true
is_strategy_allowed_for_provider (other_provider p) s ack = true

-- the requested strategy, where it is allowed
requested_or : ProviderType → Strategy → Option Strategy → Bool → Strategy
unfolding is_strategy_allowed_for_provider
requested_or provider otherwise none ack = otherwise
requested_or provider otherwise (some requested) ack =
    if is_strategy_allowed_for_provider provider requested ack then requested else otherwise

worker_strategy : ProviderType → Option NodeGroupOverride → Strategy
unfolding requested_or default_strategy_for_provider
worker_strategy provider none = default_strategy_for_provider provider
worker_strategy provider (some override) =
    requested_or provider (default_strategy_for_provider provider) override.strategy
      override.acknowledge_replace_risk

strategy_of_role : Role → ProviderType → Option NodeGroupOverride → Strategy
unfolding worker_strategy
strategy_of_role control_plane provider override = in_place
strategy_of_role worker provider override = worker_strategy provider override

unfoldable pub resolve_strategy : DiscoveredGroup → Option NodeGroupOverride → Strategy
unfolding strategy_of_role
resolve_strategy group override = strategy_of_role group.role group.provider override

pub record ExistingChild : Type 0 where
  pub name : String
  pub phase : GroupPhase

unfoldable pub is_safe_to_prune : GroupPhase → Bool
is_safe_to_prune GroupPhase.unset = true
is_safe_to_prune GroupPhase.pending = true
is_safe_to_prune GroupPhase.complete = true
is_safe_to_prune _ = false

-- desiredNames
unfoldable pub desired_names : List DiscoveredGroup → Flags → Flags
unfolding set_flag
desired_names [] m = m
desired_names (d ∷ desired) m = desired_names desired (set_flag m d.name)

-- the loop over the existing children
unfoldable pub pruned : Flags → List ExistingChild → List String
unfolding is_safe_to_prune flag
pruned m [] = []
pruned m (e ∷ existing) =
    let rest = pruned m existing in
    if flag m e.name then rest else if is_safe_to_prune e.phase then e.name ∷ rest else rest

unfoldable pub prune_candidates : List DiscoveredGroup → List ExistingChild → List String
unfolding desired_names pruned
prune_candidates desired existing = pruned (desired_names desired []) existing
