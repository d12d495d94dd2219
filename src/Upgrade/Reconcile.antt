-- ===== src/Upgrade/Reconcile.antt =====
-- kubernetesupgrade_controller.go: Reconcile of a cluster upgrade, from the object that was read.
use Prim.Native.String.{◌++◌ as ◌followed_by◌}
use kubernetes_upgrade_opera.Base.{
  String, str_eq, Bool, true, false, not, ◌||◌, List, [], ◌∷◌, ◌++◌, if◌then◌else◌,
}
use kubernetes_upgrade_opera.Core.{is_true, is_false}
use kubernetes_upgrade_opera.Types.{plain, Condition, UpgradePhase, KubernetesUpgrade}
use kubernetes_upgrade_opera.Version.{Semver}
use kubernetes_upgrade_opera.Cluster.{Run, pure, in_context, ◌>>=◌, ◌>>◌}
use kubernetes_upgrade_opera.NodeGroup.Draining.{Outcome, done, requeue, requeue_after}
use kubernetes_upgrade_opera.Upgrade.Calls.{UpgradeEnv, write_upgrade, write_upgrade_status}
use kubernetes_upgrade_opera.Upgrade.Lease.{acquire_lease, release_lease}
use kubernetes_upgrade_opera.Upgrade.Discovering.{reconcile_discovering}
use kubernetes_upgrade_opera.Upgrade.Phases.{
  begin_upgrade, reconcile_prechecks, reconcile_control_plane_upgrade, reconcile_workers_upgrade,
}
use kubernetes_upgrade_opera.Upgrade.Postchecks.{reconcile_postchecks}

abbrev pub kubernetes_upgrade_finalizer : String
kubernetes_upgrade_finalizer = "upgrade.k8s-upgrade-operator/finalizer"

unfoldable pub holder_id : KubernetesUpgrade → String
holder_id ku = ku.namespace followed_by ("/" followed_by ku.name)

-- controllerutil.ContainsFinalizer, AddFinalizer and RemoveFinalizer
unfoldable pub contains_finalizer : List String → Bool
contains_finalizer [] = false
contains_finalizer (f ∷ fs) = str_eq f kubernetes_upgrade_finalizer || contains_finalizer fs

abbrev pub add_finalizer : KubernetesUpgrade → KubernetesUpgrade
add_finalizer ku = record ku { finalizers = ku.finalizers ++ kubernetes_upgrade_finalizer ∷ [] }

unfoldable pub without_finalizer : List String → List String
without_finalizer [] = []
without_finalizer (f ∷ fs) =
    let rest = without_finalizer fs in
    if str_eq f kubernetes_upgrade_finalizer then rest else f ∷ rest

abbrev pub remove_finalizer : KubernetesUpgrade → KubernetesUpgrade
unfolding without_finalizer
remove_finalizer ku = record ku { finalizers = without_finalizer ku.finalizers }

unfoldable pub upgrade_paused_condition : KubernetesUpgrade → Condition
upgrade_paused_condition ku = record {
  kind = "Paused";
  status = if ku.spec.paused then is_true else is_false;
  reason = if ku.spec.paused then "UserRequested" else "NotPaused";
  message = plain "Reflects spec.paused";
}

-- Complete, Failed and Paused
unfoldable pub is_terminal : UpgradePhase → Bool
is_terminal UpgradePhase.complete = true
is_terminal UpgradePhase.failed = true
is_terminal UpgradePhase.paused = true
is_terminal _ = false

module _ (S : Semver) (env : UpgradeEnv) where
  -- the second `switch`
  unfoldable pub upgrade_by_phase : UpgradePhase → KubernetesUpgrade → Run Outcome
  upgrade_by_phase UpgradePhase.unset ku = begin_upgrade env ku
  upgrade_by_phase UpgradePhase.pending ku = begin_upgrade env ku
  upgrade_by_phase UpgradePhase.discovering ku = reconcile_discovering S env ku
  upgrade_by_phase UpgradePhase.prechecks ku = reconcile_prechecks env ku
  upgrade_by_phase UpgradePhase.control_plane_upgrade ku = reconcile_control_plane_upgrade env ku
  upgrade_by_phase UpgradePhase.workers_upgrade ku = reconcile_workers_upgrade env ku
  upgrade_by_phase UpgradePhase.postchecks ku = reconcile_postchecks S env ku
  upgrade_by_phase _ ku = pure done

  unfoldable pub with_lease : KubernetesUpgrade → Bool → Run Outcome
  unfolding upgrade_by_phase
  with_lease ku true = upgrade_by_phase ku.status.phase ku
  with_lease ku false = pure (requeue_after 30)

  -- behind the paused condition
  unfoldable pub unless_paused : KubernetesUpgrade → Run Outcome
  unfolding with_lease is_terminal acquire_lease release_lease holder_id
  unless_paused ku =
      if ku.spec.paused
      then pure done
      else if is_terminal ku.status.phase
      then (do release_lease env (holder_id ku); pure done)
      else (do
        acquired ← in_context "acquiring upgrade lease" (acquire_lease env (holder_id ku))
        with_lease ku acquired)

  unfoldable pub set_paused_condition : KubernetesUpgrade → KubernetesUpgrade
  unfolding upgrade_paused_condition
  set_paused_condition ku = record ku {
    status = record ku.status {
      conditions = (env.set_condition ku.status.conditions (upgrade_paused_condition ku)).0;
    };
  }

  unfoldable pub write_condition_if : Bool → KubernetesUpgrade → Run (Unit {0})
  write_condition_if true ku = write_upgrade_status env ku
  write_condition_if false ku = pure tt

  unfoldable pub reconcile_running : KubernetesUpgrade → Run Outcome
  unfolding set_paused_condition write_condition_if unless_paused upgrade_paused_condition
  reconcile_running ku = do
    write_condition_if (env.set_condition ku.status.conditions (upgrade_paused_condition ku)).1
        (set_paused_condition ku)
    unless_paused (set_paused_condition ku)

  -- the last reconcile of an upgrade that is being deleted; the metrics are left out
  unfoldable pub finalize : KubernetesUpgrade → Run Outcome
  unfolding contains_finalizer release_lease holder_id without_finalizer
  finalize ku =
      if contains_finalizer ku.finalizers
      then (do release_lease env (holder_id ku); write_upgrade env (remove_finalizer ku); pure done)
      else pure done

  unfoldable pub reconcile_upgrade : KubernetesUpgrade → Run Outcome
  unfolding finalize contains_finalizer reconcile_running
  reconcile_upgrade ku =
      if ku.deleting
      then finalize ku
      else if not (contains_finalizer ku.finalizers)
      then (do write_upgrade env (add_finalizer ku); pure requeue)
      else reconcile_running ku
