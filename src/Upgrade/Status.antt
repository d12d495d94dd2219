-- ===== src/Upgrade/Status.antt =====
-- What the phases of a cluster upgrade write into its status.
use kubernetes_upgrade_opera.Base.{ℤ, pos, negsuc, String, Option, none, some, List, get_elem?}
use kubernetes_upgrade_opera.Result.{go_panic, Result, ok, err}
use kubernetes_upgrade_opera.Types.{Message, UpgradePhase, KubernetesUpgrade}
use kubernetes_upgrade_opera.StepPlan.{UpgradeStep}

-- setKUPhase; the metrics are left out
abbrev pub set_phase : UpgradePhase → KubernetesUpgrade → KubernetesUpgrade
set_phase phase ku = record ku { status = record ku.status { phase = phase } }

abbrev pub with_message : Message → KubernetesUpgrade → KubernetesUpgrade
with_message message ku = record ku { status = record ku.status { message = message } }

-- a new plan, from its first step
abbrev pub with_plan : String → List UpgradeStep → KubernetesUpgrade → KubernetesUpgrade
with_plan starting steps ku = record ku {
  status = record ku.status {
    starting_version = starting;
    step_plan = steps;
    current_step_index = pos 0;
  };
}

-- `ku.Status.StepPlan[ku.Status.CurrentStepIndex]`, which panics out of range
abbrev step_or_panic : Option UpgradeStep → Result UpgradeStep
step_or_panic none = err go_panic
step_or_panic (some s) = ok s

unfoldable pub step_at : List UpgradeStep → ℤ → Result UpgradeStep
step_at steps (pos i) = step_or_panic (get_elem? steps i)
step_at steps (negsuc i) = err go_panic
