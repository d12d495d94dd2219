-- ===== src/Upgrade/Phases.antt =====
-- kubernetesupgrade_pending.go, the prechecks, kubernetesupgrade_controlplane.go and
-- kubernetesupgrade_workers.go: the phases that begin an upgrade and take its groups through it.
use kubernetes_upgrade_opera.Base.{
  String, Bool, true, false, Option, none, some, List, [], ◌∷◌, if◌then◌else◌,
}
use kubernetes_upgrade_opera.Result.{not_found, api, wrapped}
use kubernetes_upgrade_opera.Core.{Node}
use kubernetes_upgrade_opera.Types.{
  control_plane, worker, group_failed, GroupPhase, NodeProgress, NodeGroupUpgrade, UpgradePhase,
  DiscoveredGroupStatus, KubernetesUpgrade,
}
use kubernetes_upgrade_opera.NodeState.{is_node_ready}
use kubernetes_upgrade_opera.Discovery.{control_plane_group_name}
use kubernetes_upgrade_opera.Cluster.{
  Answer, found, refused, Run, pure, raise, lift, in_context, ◌>>=◌, ◌>>◌,
}
use kubernetes_upgrade_opera.NodeGroup.Draining.{Outcome, done, requeue, requeue_after}
use kubernetes_upgrade_opera.Upgrade.Calls.{
  UpgradeEnv, read_nodes, read_group, read_groups, write_release, write_upgrade_status,
}
use kubernetes_upgrade_opera.Upgrade.Status.{set_phase, with_message, step_at}
use kubernetes_upgrade_opera.Upgrade.Child.{child_name}

unfoldable pub all_ready : List Node → Bool
unfolding is_node_ready
all_ready [] = true
all_ready (node ∷ nodes) = let rest = all_ready nodes in if is_node_ready node then rest else false

unfoldable pub next_phase_after_prechecks : List DiscoveredGroupStatus → UpgradePhase
next_phase_after_prechecks [] = UpgradePhase.workers_upgrade
next_phase_after_prechecks (g ∷ groups) =
    let rest = next_phase_after_prechecks groups in
    elim g.role [ control_plane ↦ UpgradePhase.control_plane_upgrade | worker ↦ rest ]

-- the first node that has no completion time, or ""
unfoldable pub currently_upgrading_node : List NodeProgress → String
currently_upgrading_node [] = ""
currently_upgrading_node (np ∷ progress) =
    let rest = currently_upgrading_node progress in
    elim np.completed_at [ none ↦ np.name | some t ↦ rest ]

unfoldable pub with_control_plane :
    NodeGroupUpgrade → String → KubernetesUpgrade → KubernetesUpgrade
unfolding currently_upgrading_node
with_control_plane child version ku = record ku {
  status = record ku.status {
    control_plane = record {
      total_nodes = child.status.total_nodes;
      upgraded_nodes = child.status.upgraded_nodes;
      current_node = currently_upgrading_node child.status.node_progress;
      version = version;
    };
  };
}

abbrev pub without_hold : NodeGroupUpgrade → NodeGroupUpgrade
without_hold child = record child { spec = record child.spec { hold = false } }

-- What the loop over the workers finds.
pub data Verdict : Type 0 where
  all_complete still_waiting : Verdict
  one_failed : NodeGroupUpgrade → Verdict

-- `allComplete` behind a worker group; `none` where the group has failed
unfoldable pub worker_state : GroupPhase → Bool → Option Bool
worker_state GroupPhase.complete so_far = some so_far
worker_state GroupPhase.failed so_far = none
worker_state _ so_far = some false

module _ (env : UpgradeEnv) where
  unfoldable pub begin_upgrade : KubernetesUpgrade → Run Outcome
  begin_upgrade ku = do
    write_upgrade_status env (record ku {
      status = record ku.status {
        phase = UpgradePhase.discovering;
        observed_generation = ku.generation;
      };
    })
    pure requeue

  -- `setKUPhase(ku, phase)`, the update, and another reconcile
  unfoldable pub move_on : UpgradePhase → KubernetesUpgrade → Run Outcome
  move_on phase ku = do write_upgrade_status env (set_phase phase ku); pure requeue

  unfoldable pub reconcile_prechecks : KubernetesUpgrade → Run Outcome
  unfolding all_ready next_phase_after_prechecks move_on
  reconcile_prechecks ku = do
    nodes ← in_context "listing nodes" (read_nodes env)
    if all_ready nodes
        then move_on (next_phase_after_prechecks ku.status.discovered_groups) ku
        else pure (requeue_after 15)

  -- the group that the API server answers with takes the place of the child
  unfoldable pub clear_hold : NodeGroupUpgrade → Run NodeGroupUpgrade
  clear_hold child = if child.spec.hold then write_release env (without_hold child) else pure child

  -- `setKUPhase(ku, PhaseFailed)` with the message of the group that has failed
  unfoldable pub fail_with : String → NodeGroupUpgrade → KubernetesUpgrade → Run Outcome
  fail_with name child ku = do
    write_upgrade_status env
        (with_message (group_failed name child.status.message) (set_phase UpgradePhase.failed ku))
    pure done

  -- the `switch` on the phase of the control plane's group
  unfoldable pub by_child_phase : GroupPhase → NodeGroupUpgrade → KubernetesUpgrade → Run Outcome
  unfolding move_on fail_with
  by_child_phase GroupPhase.complete child ku = move_on UpgradePhase.workers_upgrade ku
  by_child_phase GroupPhase.failed child ku = fail_with control_plane_group_name child ku
  by_child_phase _ child ku = do write_upgrade_status env ku; pure (requeue_after 10)

  unfoldable pub with_control_plane_child :
      KubernetesUpgrade → Answer NodeGroupUpgrade → Run Outcome
  unfolding clear_hold step_at by_child_phase with_control_plane move_on
  with_control_plane_child ku (refused not_found) = move_on UpgradePhase.workers_upgrade ku
  with_control_plane_child ku (refused e) =
      raise (wrapped "getting control-plane NodeGroupUpgrade" (api e))
  with_control_plane_child ku (found child) = do
    stored ← in_context "clearing hold on control-plane group" (clear_hold child)
    hop ← lift (step_at ku.status.step_plan ku.status.current_step_index)
    by_child_phase stored.status.phase stored (with_control_plane stored hop.to_version ku)

  unfoldable pub reconcile_control_plane_upgrade : KubernetesUpgrade → Run Outcome
  unfolding with_control_plane_child child_name
  reconcile_control_plane_upgrade ku = do
    child ← read_group env ku.namespace (child_name env.to_lower ku.name control_plane_group_name)
    with_control_plane_child ku child

  -- the loop over the children
  unfoldable pub visit_workers : List NodeGroupUpgrade → Bool → Run Verdict
  unfolding clear_hold worker_state
  visit_workers [] so_far = pure (if so_far then all_complete else still_waiting)
  visit_workers (child ∷ children) so_far = elim child.spec.role [
    | control_plane ↦ visit_workers children so_far
    | worker ↦ in_context "clearing hold on worker group" (clear_hold child) >>= (λ stored.
        elim (worker_state stored.status.phase so_far) [
          | none ↦ pure (one_failed stored)
          | some still ↦ visit_workers children still
        ])
  ]

  unfoldable pub after_workers : KubernetesUpgrade → Verdict → Run Outcome
  unfolding move_on fail_with
  after_workers ku all_complete = move_on UpgradePhase.postchecks ku
  after_workers ku still_waiting = pure (requeue_after 10)
  after_workers ku (one_failed child) = fail_with child.name child ku

  unfoldable pub reconcile_workers_upgrade : KubernetesUpgrade → Run Outcome
  unfolding visit_workers after_workers
  reconcile_workers_upgrade ku = do
    children ← in_context "listing NodeGroupUpgrade children" (read_groups env ku.namespace ku.name)
    verdict ← visit_workers children true
    after_workers ku verdict
