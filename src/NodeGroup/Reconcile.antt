-- ===== src/NodeGroup/Reconcile.antt =====
-- nodegroupupgrade_controller.go: Reconcile of one node group, from the object that was read.
pub mod Keeps
pub mod Held
pub mod Stuck
use kubernetes_upgrade_opera.Base.{
  ℕ, ℤ, pos, int32, String, Bool, true, false, not, Option, none, some, List, [], ◌∷◌,
  if◌then◌else◌, str_eq, length,
}
use kubernetes_upgrade_opera.Core.{is_true, is_false, lookup}
use kubernetes_upgrade_opera.Types.{GroupPhase, NodeProgress, NodeGroupUpgrade, Condition, plain}
use kubernetes_upgrade_opera.Version.{Semver}
use kubernetes_upgrade_opera.Cluster.{Env, Run, pure, write_status, ◌>>=◌, ◌>>◌}
use kubernetes_upgrade_opera.Adapter.{Registry}
use kubernetes_upgrade_opera.NodeGroup.Progress.{init_node_progress, with_progress, with_phase}
use kubernetes_upgrade_opera.NodeGroup.Draining.{Outcome, done, requeue, reconcile_draining}
use kubernetes_upgrade_opera.NodeGroup.Upgrading.{reconcile_upgrading}
use kubernetes_upgrade_opera.NodeGroup.Verifying.{reconcile_verifying}

abbrev paused_reason_annotation : String
paused_reason_annotation = "upgrade.k8s-upgrade-operator/paused-reason"

-- the condition that setNGPausedCondition sets
paused_by : Option String → Condition
paused_by none = record {
  kind = "Paused";
  status = is_true;
  reason = "UserRequested";
  message = plain "reflects spec.paused";
}
paused_by (some explanation) = record {
  kind = "Paused";
  status = is_true;
  reason = "HeuristicClassification";
  message = plain explanation;
}

not_paused : Condition
not_paused = record {
  kind = "Paused";
  status = is_false;
  reason = "NotPaused";
  message = plain "reflects spec.paused";
}

unfoldable pub paused_condition : NodeGroupUpgrade → Condition
unfolding paused_by not_paused
paused_condition ng =
    if ng.spec.paused
    then paused_by (lookup ng.annotations paused_reason_annotation)
    else not_paused

first_differs : List NodeProgress → String → Bool
first_differs [] target = false
first_differs (np ∷ progress) target = not (str_eq np.to_version target)

abbrev is_complete : GroupPhase → Bool
is_complete GroupPhase.complete = true
is_complete _ = false

unfoldable pub needs_reset : NodeGroupUpgrade → Bool
unfolding first_differs
needs_reset ng =
    if is_complete ng.status.phase
    then first_differs ng.status.node_progress ng.spec.target_version
    else false

unfoldable pub reset : NodeGroupUpgrade → NodeGroupUpgrade
reset ng = record ng {
  status = record ng.status {
    phase = GroupPhase.unset;
    node_progress = [];
    upgraded_nodes = pos 0;
  };
}

-- what reconcilePending writes
unfoldable pub initialised : NodeGroupUpgrade → NodeGroupUpgrade
unfolding init_node_progress
initialised ng = record ng {
  status = record ng.status {
    total_nodes = int32 (pos (length ng.spec.nodes));
    node_progress = init_node_progress ng.spec.nodes ng.spec.target_version;
    phase = GroupPhase.draining;
    observed_generation = ng.generation;
  };
}

module _ (S : Semver) (env : Env) (adapters : Registry) where
  unfoldable pub reconcile_pending : NodeGroupUpgrade → Run Outcome
  unfolding initialised
  reconcile_pending ng = do write_status env (initialised ng); pure requeue

  -- the `switch` on the phase
  unfoldable pub by_phase : GroupPhase → NodeGroupUpgrade → Run Outcome
  unfolding reconcile_pending
  by_phase GroupPhase.unset ng = reconcile_pending ng
  by_phase GroupPhase.pending ng = reconcile_pending ng
  by_phase GroupPhase.draining ng = reconcile_draining env ng
  by_phase GroupPhase.upgrading ng = reconcile_upgrading S env adapters ng
  by_phase GroupPhase.verifying ng = reconcile_verifying S env adapters ng
  by_phase GroupPhase.complete ng = pure done
  by_phase GroupPhase.failed ng = pure done
  by_phase GroupPhase.paused ng = pure done
  by_phase (GroupPhase.other_phase p) ng = pure done

  set_conditions : NodeGroupUpgrade → NodeGroupUpgrade
  set_conditions ng = record ng {
    status = record ng.status {
      conditions = (env.set_condition ng.status.conditions (paused_condition ng)).0;
    };
  }

  write_condition : Bool → NodeGroupUpgrade → Run (Unit {0})
  write_condition true ng = write_status env ng
  write_condition false ng = pure tt

  -- behind the Paused condition
  unfoldable pub unless_held : NodeGroupUpgrade → Run Outcome
  unfolding by_phase reset needs_reset
  unless_held ng =
      if ng.spec.paused
      then pure done
      else if ng.spec.hold
      then pure done
      else if needs_reset ng
      then (do write_status env (reset ng); pure requeue)
      else by_phase ng.status.phase ng

  unfoldable pub reconcile : NodeGroupUpgrade → Run Outcome
  unfolding set_conditions write_condition unless_held paused_condition
  reconcile ng = do
    write_condition (env.set_condition ng.status.conditions (paused_condition ng)).1
        (set_conditions ng)
    unless_held (set_conditions ng)
