-- ===== src/Upgrade/Postchecks.antt =====
-- kubernetesupgrade_postchecks.go: the end of a step of the plan.
use text.Mathlib.Text.{is_lt}
use kubernetes_upgrade_opera.Base.{
  ℕ, zero, suc, ℤ, pos, negsuc, ◌+ℤ◌, ltb_ℤ, int32, String, Bool, true, false, some, List, [], ◌∷◌,
  if◌then◌else◌, length,
}
use kubernetes_upgrade_opera.Result.{Result, ok, context, ◌>>=◌ as then_result}
use kubernetes_upgrade_opera.Core.{Time, Node}
use kubernetes_upgrade_opera.Types.{upgraded_to, UpgradePhase, KubernetesUpgrade}
use kubernetes_upgrade_opera.Version.{Semver, compare_versions}
use kubernetes_upgrade_opera.StepPlan.{UpgradeStep}
use kubernetes_upgrade_opera.Discovery.{DiscoveredGroup}
use kubernetes_upgrade_opera.Discovery.Groups.{discover_groups}
use kubernetes_upgrade_opera.Discovery.Versions.{group_current_version}
use kubernetes_upgrade_opera.Cluster.{Run, pure, lift, in_context, ◌>>=◌, ◌>>◌}
use kubernetes_upgrade_opera.NodeGroup.Draining.{Outcome, done, requeue, requeue_after}
use kubernetes_upgrade_opera.Upgrade.Calls.{UpgradeEnv, read_nodes, read_time, write_upgrade_status}
use kubernetes_upgrade_opera.Upgrade.Status.{set_phase, with_message, step_at}
use kubernetes_upgrade_opera.Upgrade.Phases.{all_ready, move_on}

-- `StepPlan[i].CompletedAt = &now`, for an index in range
abbrev pub complete_at : Time → ℕ → List UpgradeStep → List UpgradeStep
complete_at t i [] = []
complete_at t zero (s ∷ steps) = record s { completed_at = some t } ∷ steps
complete_at t (suc i) (s ∷ steps) = s ∷ complete_at t i steps

unfoldable pub complete_step : Time → ℤ → List UpgradeStep → List UpgradeStep
complete_step t (pos i) steps = complete_at t i steps
complete_step t (negsuc i) steps = steps

abbrev pub with_steps : List UpgradeStep → KubernetesUpgrade → KubernetesUpgrade
with_steps steps ku = record ku { status = record ku.status { step_plan = steps } }

-- the next step of the plan is discovered anew
unfoldable pub next_step : KubernetesUpgrade → KubernetesUpgrade
next_step ku = record ku {
  status = record ku.status {
    current_step_index = int32 (ku.status.current_step_index +ℤ pos 1);
    phase = UpgradePhase.discovering;
  };
}

unfoldable pub finished_upgrade : KubernetesUpgrade → KubernetesUpgrade
finished_upgrade ku =
    with_message (upgraded_to ku.spec.target_version) (set_phase UpgradePhase.complete ku)

-- int(ku.Status.CurrentStepIndex)+1 < len(ku.Status.StepPlan)
unfoldable pub has_next_step : KubernetesUpgrade → Bool
has_next_step ku = ltb_ℤ (ku.status.current_step_index +ℤ pos 1) (pos (length ku.status.step_plan))

module _ (S : Semver) where
  -- one round of the loop over the groups: whether the group is behind the hop's target
  unfoldable pub is_lagging : List Node → String → DiscoveredGroup → Result Bool
  unfolding group_current_version compare_versions
  is_lagging nodes hop_target group =
      then_result
        (context "determining current version for group" (group_current_version S nodes group))
        (λ current.
          then_result
            (context "comparing versions for group" (compare_versions S current hop_target))
            (λ cmp. ok (is_lt cmp)))

  -- whether the loop finds a group that is behind
  unfoldable pub any_lagging : List Node → String → List DiscoveredGroup → Result Bool
  unfolding is_lagging
  any_lagging nodes hop_target [] = ok false
  any_lagging nodes hop_target (group ∷ groups) =
      let rest = any_lagging nodes hop_target groups in
      then_result (is_lagging nodes hop_target group) (λ lags. if lags then ok true else rest)

module _ (S : Semver) (env : UpgradeEnv) where
  unfoldable pub close_step : KubernetesUpgrade → Run Outcome
  unfolding next_step finished_upgrade has_next_step
  close_step ku =
      if has_next_step ku
      then (do write_upgrade_status env (next_step ku); pure requeue)
      else (do write_upgrade_status env (finished_upgrade ku); pure done)

  -- behind the loop over the groups
  unfoldable pub end_step : KubernetesUpgrade → Bool → Run Outcome
  unfolding close_step complete_step move_on
  end_step ku true = move_on env UpgradePhase.discovering ku
  end_step ku false = do
    t ← read_time env
    close_step (with_steps (complete_step t ku.status.current_step_index ku.status.step_plan) ku)

  unfoldable pub check_groups : KubernetesUpgrade → List Node → Run Outcome
  unfolding step_at any_lagging end_step
  check_groups ku nodes = do
    hop ← lift (step_at ku.status.step_plan ku.status.current_step_index)
    groups ←
        in_context "discovering node groups"
          (lift (discover_groups env.parse_selector nodes ku.spec.scope))
    lagging ← lift (any_lagging S nodes hop.to_version groups)
    end_step ku lagging

  unfoldable pub reconcile_postchecks : KubernetesUpgrade → Run Outcome
  unfolding check_groups all_ready
  reconcile_postchecks ku = do
    nodes ← in_context "listing nodes" (read_nodes env)
    if all_ready nodes then check_groups ku nodes else pure (requeue_after 15)
