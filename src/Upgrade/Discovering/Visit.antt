-- ===== src/Upgrade/Discovering/Visit.antt =====
-- The loop of reconcileDiscovering over the discovered groups, which applies one child for each.
use kubernetes_upgrade_opera.Base.{
  pos, int32, String, Bool, false, not, ◌&&◌, ◌||◌, Option, none, some, List, [], ◌∷◌, ◌++◌,
  if◌then◌else◌, length,
}
use kubernetes_upgrade_opera.Core.{Node}
use kubernetes_upgrade_opera.Types.{
  generic, Strategy, replace, NodeGroupUpgrade, NodeGroupOverride, DiscoveredGroupStatus,
  KubernetesUpgrade,
}
use kubernetes_upgrade_opera.Version.{Semver}
use kubernetes_upgrade_opera.StepPlan.{next_group_target}
use kubernetes_upgrade_opera.Discovery.{DiscoveredGroup}
use kubernetes_upgrade_opera.Discovery.Versions.{group_current_version}
use kubernetes_upgrade_opera.Adapter.{same_provider, same_strategy}
use kubernetes_upgrade_opera.Cluster.{Run, pure, lift, in_context, ◌>>=◌, ◌>>◌}
use kubernetes_upgrade_opera.Upgrade.Calls.{UpgradeEnv, write_group}
use kubernetes_upgrade_opera.Upgrade.Child.{find_override, build_desired_child}

unfoldable pub is_skipped : Option NodeGroupOverride → Bool
is_skipped none = false
is_skipped (some override) = elim override.skip [ none ↦ false | some skip ↦ skip ]

unfoldable pub requested_replace : Option NodeGroupOverride → Bool
requested_replace none = false
requested_replace (some override) = elim override.strategy [
  | none ↦ false
  | some s ↦ same_strategy s replace
]

-- What the loop over the groups collects.
pub record Tally : Type 0 where
  pub discovered : List DiscoveredGroupStatus
  pub replace_active : Bool
  pub replace_rejected : Bool

unfoldable pub count_risk : DiscoveredGroup → Option NodeGroupOverride → Strategy → Tally → Tally
unfolding requested_replace
count_risk group override strategy tally =
    let asked = same_provider group.provider generic && requested_replace override in
    let replaces = same_strategy strategy replace in
    record tally {
      replace_active = tally.replace_active || asked && replaces;
      replace_rejected = tally.replace_rejected || asked && not replaces;
    }

-- the entry of status.discoveredGroups, from the group as the API server stored it
unfoldable pub group_status : DiscoveredGroup → NodeGroupUpgrade → DiscoveredGroupStatus
group_status group child = record {
  name = group.name;
  provider = group.provider;
  strategy = child.spec.strategy;
  role = group.role;
  phase = child.status.phase;
  node_count = int32 (pos (length group.nodes));
  child_ref_name = child.name;
  heuristic = group.heuristic;
}

abbrev with_status : Tally → DiscoveredGroupStatus → Tally
with_status tally status = record tally { discovered = tally.discovered ++ status ∷ [] }

module _ (S : Semver) (env : UpgradeEnv) where
  -- the target of a group for this pass
  unfoldable pub group_target : List Node → String → DiscoveredGroup → Run String
  unfolding group_current_version next_group_target
  group_target nodes hop_target group = do
    current ←
        in_context "determining current version for group"
          (lift (group_current_version S nodes group))
    in_context "computing next target for group" (lift (next_group_target S current hop_target))

  unfoldable pub apply_child :
      KubernetesUpgrade → DiscoveredGroup → NodeGroupUpgrade → Run DiscoveredGroupStatus
  unfolding group_status
  apply_child ku group child = do
    in_context "setting controller reference for group" (lift (env.set_owner ku child))
    stored ← in_context "applying NodeGroupUpgrade for group" (write_group env child)
    pure (group_status group stored)

  -- a round of the loop, for a group that is not skipped
  unfoldable pub visit_child :
      KubernetesUpgrade
      → DiscoveredGroup
      → Option NodeGroupOverride
      → Tally
      → NodeGroupUpgrade
      → Run Tally
  unfolding apply_child count_risk
  visit_child ku group override tally child = do
    status ← apply_child ku group child
    pure (with_status (count_risk group override child.spec.strategy tally) status)

  unfoldable pub visit_group :
      List Node → KubernetesUpgrade → String → DiscoveredGroup → Tally → Run Tally
  unfolding group_target visit_child is_skipped find_override build_desired_child
  visit_group nodes ku hop_target group tally =
      let override = find_override ku.spec.group_overrides group.name in
      if is_skipped override then pure tally else (do
        target ← group_target nodes hop_target group
        visit_child ku group override tally
            (build_desired_child env.to_lower ku group target override ku.spec.defaults))

  unfoldable pub visit_groups :
      List Node → KubernetesUpgrade → String → List DiscoveredGroup → Tally → Run Tally
  unfolding visit_group
  visit_groups nodes ku hop_target [] tally = pure tally
  visit_groups nodes ku hop_target (group ∷ groups) tally = do
    next ← visit_group nodes ku hop_target group tally
    visit_groups nodes ku hop_target groups next
