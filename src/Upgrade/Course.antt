-- ===== src/Upgrade/Course.antt =====
-- The course of an upgrade: what kubernetesupgrade_controller.go promises of the phases, as a machine
-- over the phase, the plan and the place in it alone. Lawful proves that the code implements it.
pub mod InRange
use kubernetes_upgrade_opera.Base.{
  ℤ, pos, ◌+ℤ◌, ltb_ℤ, int32, String, Bool, true, false, Option, some, List, [], ◌∷◌, length, ◌≡◌,
  ◌⊎◌,
}
use kubernetes_upgrade_opera.Result.{Error, ok, err}
use kubernetes_upgrade_opera.Core.{Time}
use kubernetes_upgrade_opera.Types.{
  UpgradePhase, KubernetesUpgradeSpec, KubernetesUpgradeStatus, KubernetesUpgrade,
}
use kubernetes_upgrade_opera.Version.{Semver}
use kubernetes_upgrade_opera.StepPlan.{UpgradeStep, compute_step_plan}
use kubernetes_upgrade_opera.Upgrade.Status.{step_at}
use kubernetes_upgrade_opera.Upgrade.Discovering.Planning.{downgrade_allowed}
use kubernetes_upgrade_opera.Upgrade.Postchecks.{complete_step}

pub record Course : Type 0 where
  pub phase : UpgradePhase
  pub starting : String
  pub plan : List UpgradeStep
  pub place : ℤ

abbrev pub course : KubernetesUpgradeStatus → Course
course status = record {
  phase = status.phase;
  starting = status.starting_version;
  plan = status.step_plan;
  place = status.current_step_index;
}

abbrev pub to_phase : UpgradePhase → Course → Course
to_phase phase c = record c { phase = phase }

-- An upgrade that no reconcile has begun.
abbrev pub is_new : UpgradePhase → Bool
is_new UpgradePhase.unset = true
is_new UpgradePhase.pending = true
is_new _ = false

-- The planned hops are those of the step plan from some version to the target of the spec.
abbrev pub Plans : Semver → KubernetesUpgradeSpec → String → List UpgradeStep → Type 0
Plans S spec starting plan =
    compute_step_plan S starting spec.target_version (downgrade_allowed spec.safety) ≡ ok plan

-- What must be so in the cluster before some of the steps.
pub record Guards : Type 1 where
  pub starts_at : String → Type 0
  pub nodes_ready : Type 0
  pub no_control_plane : Type 0
  pub control_plane_ended : Type 0
  pub control_plane_at_work : Type 0
  pub workers_ended : Type 0
  pub group_failed : Type 0
  pub lagging : String → Type 0
  pub hop_reached : String → Type 0

-- A course without a plan, which gets one from the version that the cluster starts at.
pub data Planned (S : Semver) (spec : KubernetesUpgradeSpec) (guards : Guards) (before : Course)
    : Course → Type 0 where
  planned :
      (starting : String) (s : UpgradeStep) (steps : List UpgradeStep)
      → (before.starting ≡ "") ⊎ (before.plan ≡ [])
      → guards.starts_at starting
      → Plans S spec starting (s ∷ steps)
      → Planned S spec guards before
          (record before { starting = starting; plan = s ∷ steps; place = pos 0 })

-- The course behind the planning: as it was, or with a new plan at its first hop where it had none.
abbrev pub Planning : Semver → KubernetesUpgradeSpec → Guards → Course → Course → Type 0
Planning S spec guards before after = (after ≡ before) ⊎ Planned S spec guards before after

-- One step of the course.
pub data Step (S : Semver) (spec : KubernetesUpgradeSpec) (guards : Guards) (before : Course)
    : Course → Type 0 where
  begins :
      is_new before.phase ≡ true
      → Step S spec guards before (to_phase UpgradePhase.discovering before)
  -- the plan is stored before the groups are discovered
  plans :
      (after : Course)
      → before.phase ≡ UpgradePhase.discovering
      → Planned S spec guards before after
      → Step S spec guards before after
  has_no_hops :
      (starting : String)
      → before.phase ≡ UpgradePhase.discovering
      → (before.starting ≡ "") ⊎ (before.plan ≡ [])
      → guards.starts_at starting
      → Plans S spec starting []
      → Step S spec guards before
          (record { phase = UpgradePhase.complete; starting = starting; plan = []; place = pos 0 })
  has_no_plan :
      (starting : String) (e : Error)
      → before.phase ≡ UpgradePhase.discovering
      → (before.starting ≡ "") ⊎ (before.plan ≡ [])
      → guards.starts_at starting
      → compute_step_plan S starting spec.target_version (downgrade_allowed spec.safety) ≡ err e
      → Step S spec guards before (to_phase UpgradePhase.failed before)
  discovers :
      (after : Course) (s : UpgradeStep)
      → before.phase ≡ UpgradePhase.discovering
      → Planning S spec guards before after
      → step_at after.plan after.place ≡ ok s
      → Step S spec guards before (to_phase UpgradePhase.prechecks after)
  -- the control plane comes before the workers, where there is one to upgrade
  checks_control_plane :
      before.phase ≡ UpgradePhase.prechecks
      → guards.nodes_ready
      → Step S spec guards before (to_phase UpgradePhase.control_plane_upgrade before)
  checks_workers :
      before.phase ≡ UpgradePhase.prechecks
      → guards.nodes_ready
      → guards.no_control_plane
      → Step S spec guards before (to_phase UpgradePhase.workers_upgrade before)
  control_plane_done :
      before.phase ≡ UpgradePhase.control_plane_upgrade
      → guards.control_plane_ended
      → Step S spec guards before (to_phase UpgradePhase.workers_upgrade before)
  -- the status of the control plane's group is taken over while that is neither Complete nor Failed
  waits :
      before.phase ≡ UpgradePhase.control_plane_upgrade
      → guards.control_plane_at_work
      → Step S spec guards before before
  workers_done :
      before.phase ≡ UpgradePhase.workers_upgrade
      → guards.workers_ended
      → Step S spec guards before (to_phase UpgradePhase.postchecks before)
  fails :
      (before.phase ≡ UpgradePhase.control_plane_upgrade)
        ⊎ (before.phase ≡ UpgradePhase.workers_upgrade)
      → guards.group_failed
      → Step S spec guards before (to_phase UpgradePhase.failed before)
  -- some group needs another pass for the same hop
  repeats :
      (s : UpgradeStep)
      → before.phase ≡ UpgradePhase.postchecks
      → step_at before.plan before.place ≡ ok s
      → guards.lagging s.to_version
      → Step S spec guards before (to_phase UpgradePhase.discovering before)
  -- the hop is completed, and the next one or none is left
  advances :
      (t : Time) (s : UpgradeStep)
      → before.phase ≡ UpgradePhase.postchecks
      → step_at before.plan before.place ≡ ok s
      → guards.hop_reached s.to_version
      → ltb_ℤ (before.place +ℤ pos 1) (pos (length (complete_step t before.place before.plan)))
        ≡ true
      → Step S spec guards before (record before {
        phase = UpgradePhase.discovering;
        plan = complete_step t before.place before.plan;
        place = int32 (before.place +ℤ pos 1);
      })
  finishes :
      (t : Time) (s : UpgradeStep)
      → before.phase ≡ UpgradePhase.postchecks
      → step_at before.plan before.place ≡ ok s
      → guards.hop_reached s.to_version
      → ltb_ℤ (before.place +ℤ pos 1) (pos (length (complete_step t before.place before.plan)))
        ≡ false
      → Step S spec guards before (record before {
        phase = UpgradePhase.complete;
        plan = complete_step t before.place before.plan;
      })
