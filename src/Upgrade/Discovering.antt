-- ===== src/Upgrade/Discovering.antt =====
-- reconcileDiscovering of kubernetesupgrade_discovering.go. Planning has its plan, Visit its loop
-- over the groups, and Prune the deletion of children without a group.
pub mod Planning
pub mod Visit
pub mod Prune
use kubernetes_upgrade_opera.Base.{
  ℕ, ℤ, pos, negsuc, int32, String, str_eq, Bool, true, false, not, ◌&&◌, ◌||◌, Option, none, some,
  List, [], ◌∷◌, ◌++◌, if◌then◌else◌, length, get_elem?,
}
use kubernetes_upgrade_opera.Result.{Error, go_panic, Result, ok, err}
use kubernetes_upgrade_opera.Core.{Node, is_true, is_false}
use kubernetes_upgrade_opera.Types.{
  ProviderType, generic, Strategy, replace, Message, plain, of_error, Condition, NodeGroupUpgrade,
  NodeGroupOverride, SafetyPolicy, UpgradePhase, DiscoveredGroupStatus, KubernetesUpgrade,
}
use kubernetes_upgrade_opera.Version.{Semver}
use kubernetes_upgrade_opera.StepPlan.{UpgradeStep, compute_step_plan, next_group_target}
use kubernetes_upgrade_opera.Discovery.{DiscoveredGroup}
use kubernetes_upgrade_opera.Discovery.Groups.{discover_groups}
use kubernetes_upgrade_opera.Discovery.Versions.{
  group_current_version, oldest_version_across_groups,
}
use kubernetes_upgrade_opera.Adapter.{same_provider, same_strategy}
use kubernetes_upgrade_opera.Cluster.{Run, pure, raise, lift, in_context, ◌>>=◌, ◌>>◌}
use kubernetes_upgrade_opera.NodeGroup.Draining.{Outcome, done, requeue}
use kubernetes_upgrade_opera.Upgrade.Calls.{
  UpgradeEnv, read_nodes, read_version, write_group, write_upgrade_status,
}
use kubernetes_upgrade_opera.Upgrade.Child.{find_override, build_desired_child}
use kubernetes_upgrade_opera.Upgrade.Discovering.Prune.{prune_orphaned_children}
use kubernetes_upgrade_opera.Upgrade.Status.{set_phase, step_at}
use kubernetes_upgrade_opera.Upgrade.Discovering.Planning.{Planned, ended, going, ensure_plan}
use kubernetes_upgrade_opera.Upgrade.Discovering.Visit.{Tally, visit_groups}

-- the condition about generic groups, if one is set
unfoldable pub risk_condition : Tally → Option Condition
risk_condition tally =
    if tally.replace_rejected
    then some (record {
      kind = "GenericReplaceRisk";
      status = is_false;
      reason = "NotAcknowledged";
      message =
          plain
            "one or more Generic-provider groups requested strategy=Replace without groupOverrides[].acknowledgeReplaceRisk=true; falling back to InPlace for those groups.";
    })
    else if tally.replace_active
    then some (record {
      kind = "GenericReplaceRisk";
      status = is_true;
      reason = "AcknowledgedAndActive";
      message =
          plain
            "one or more Generic-provider groups are using strategy=Replace with acknowledgeReplaceRisk=true. The operator cannot verify a deleted node is actually recreated.";
    })
    else none

module _ (env : UpgradeEnv) where
  abbrev with_risk : Option Condition → List Condition → List Condition
  with_risk none conditions = conditions
  with_risk (some c) conditions = (env.set_condition conditions c).0

  -- what is stored when the discovery is over
  unfoldable pub discovered_upgrade : Tally → KubernetesUpgrade → KubernetesUpgrade
  unfolding risk_condition
  discovered_upgrade tally ku = set_phase UpgradePhase.prechecks (record ku {
    status = record ku.status {
      conditions = with_risk (risk_condition tally) ku.status.conditions;
      discovered_groups = tally.discovered;
    };
  })

module _ (S : Semver) (env : UpgradeEnv) where
  unfoldable pub apply_children : List Node → List DiscoveredGroup → Planned → Run Outcome
  unfolding step_at visit_groups discovered_upgrade
  apply_children nodes groups ended = pure done
  apply_children nodes groups (going ku) = do
    hop ← lift (step_at ku.status.step_plan ku.status.current_step_index)
    tally ←
        visit_groups S env nodes ku hop.to_version groups
          (record { discovered = []; replace_active = false; replace_rejected = false })
    prune_orphaned_children env ku groups
    write_upgrade_status env (discovered_upgrade env tally ku)
    pure requeue

  unfoldable pub reconcile_discovering : KubernetesUpgrade → Run Outcome
  unfolding ensure_plan apply_children
  reconcile_discovering ku = do
    nodes ← in_context "listing nodes" (read_nodes env)
    groups ←
        in_context "discovering node groups"
          (lift (discover_groups env.parse_selector nodes ku.spec.scope))
    planned ← ensure_plan S env nodes groups ku
    apply_children nodes groups planned
