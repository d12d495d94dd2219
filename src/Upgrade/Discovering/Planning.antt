-- ===== src/Upgrade/Discovering/Planning.antt =====
-- reconcileDiscovering of kubernetesupgrade_discovering.go, up to the stored plan.
use kubernetes_upgrade_opera.Base.{
  String, str_eq, Bool, true, false, ◌||◌, Option, none, some, List, [], ◌∷◌, if◌then◌else◌,
}
use kubernetes_upgrade_opera.Result.{Error, go_panic, Result, ok, err}
use kubernetes_upgrade_opera.Core.{Node}
use kubernetes_upgrade_opera.Types.{plain, of_error, SafetyPolicy, UpgradePhase, KubernetesUpgrade}
use kubernetes_upgrade_opera.Version.{Semver}
use kubernetes_upgrade_opera.StepPlan.{UpgradeStep, compute_step_plan}
use kubernetes_upgrade_opera.Discovery.{DiscoveredGroup}
use kubernetes_upgrade_opera.Discovery.Versions.{oldest_version_across_groups}
use kubernetes_upgrade_opera.Cluster.{Run, pure, raise, in_context, ◌>>=◌, ◌>>◌}
use kubernetes_upgrade_opera.Upgrade.Calls.{UpgradeEnv, read_version, write_upgrade_status}
use kubernetes_upgrade_opera.Upgrade.Status.{set_phase, with_message, with_plan}

unfoldable pub needs_plan : KubernetesUpgrade → Bool
needs_plan ku =
    str_eq ku.status.starting_version ""
    || elim ku.status.step_plan [ [] ↦ true | s ∷ steps ↦ false ]

unfoldable pub downgrade_allowed : Option SafetyPolicy → Bool
downgrade_allowed none = false
downgrade_allowed (some safety) = safety.allow_downgrade

unfoldable pub is_panic : Error → Bool
is_panic go_panic = true
is_panic _ = false

-- Whether a reconcile has come to its end, or goes on with the upgrade as it now is.
pub data Planned : Type 0 where
  ended : Planned
  going : KubernetesUpgrade → Planned

module _ (S : Semver) (env : UpgradeEnv) where
  -- the oldest version of the groups, or else the API server's
  unfoldable pub starting_version : List Node → List DiscoveredGroup → Run String
  unfolding oldest_version_across_groups
  starting_version nodes groups = elim (oldest_version_across_groups S nodes groups) [
    | ok v ↦ pure v
    | err e ↦ in_context "getting apiserver version" (read_version env)
  ]

  unfoldable pub store_plan : String → List UpgradeStep → KubernetesUpgrade → Run Planned
  store_plan starting [] ku = do
    write_upgrade_status env (
        with_message (plain "cluster is already at the target version")
          (set_phase UpgradePhase.complete (with_plan starting [] ku)))
    pure ended
  store_plan starting (s ∷ steps) ku = do
    write_upgrade_status env (with_plan starting (s ∷ steps) ku)
    pure (going (with_plan starting (s ∷ steps) ku))

  -- a panic is not an error that the code sees
  unfoldable pub plan_from : String → KubernetesUpgrade → Result (List UpgradeStep) → Run Planned
  unfolding store_plan is_panic
  plan_from starting ku (ok steps) = store_plan starting steps ku
  plan_from starting ku (err e) = if is_panic e then raise e else (do
    write_upgrade_status env (with_message (of_error e) (set_phase UpgradePhase.failed ku))
    pure ended)

  unfoldable pub ensure_plan : List Node → List DiscoveredGroup → KubernetesUpgrade → Run Planned
  unfolding starting_version plan_from needs_plan downgrade_allowed
  ensure_plan nodes groups ku =
      if needs_plan ku
      then (do
        starting ← starting_version nodes groups
        plan_from starting ku (
            compute_step_plan S starting ku.spec.target_version (downgrade_allowed ku.spec.safety)))
      else pure (going ku)
