-- ===== src/Upgrade/Lawful/Planning.antt =====
-- The planning of an upgrade in Discovering.
use kubernetes_upgrade_opera.Base.{
  String, str_eq, Bool, true, false, ◌||◌, List, [], ◌∷◌, ◌≡◌, refl, ◌⊎◌, inl, inr, eq_iff,
  if◌then◌else◌,
}
use kubernetes_upgrade_opera.Result.{Result, ok, err}
use kubernetes_upgrade_opera.Core.{Node}
use kubernetes_upgrade_opera.Types.{UpgradePhase, KubernetesUpgradeStatus, KubernetesUpgrade}
use kubernetes_upgrade_opera.Version.{Semver}
use kubernetes_upgrade_opera.StepPlan.{UpgradeStep, compute_step_plan}
use kubernetes_upgrade_opera.Discovery.{DiscoveredGroup}
use kubernetes_upgrade_opera.Discovery.Versions.{oldest_version_across_groups}
use kubernetes_upgrade_opera.Cluster.{pure, in_context, ◌>>=◌}
use kubernetes_upgrade_opera.Cluster.Rules.{
  Ensures, Ensures-pure, Ensures-raise, Ensures-if, Ensures-in_context, Ensures-bind,
  Ensures-weaken,
}
use kubernetes_upgrade_opera.Upgrade.Calls.{UpgradeEnv, read_version}
use kubernetes_upgrade_opera.Upgrade.Calls.Rules.{
  Ensures-read_version, Ensures-write_upgrade_status,
}
use kubernetes_upgrade_opera.Upgrade.Discovering.Planning.{
  needs_plan, downgrade_allowed, is_panic, Planned, ended, going, starting_version, store_plan,
  plan_from, ensure_plan,
}
use kubernetes_upgrade_opera.Upgrade.Course.{
  course, Plans, Planning, planned, plans, has_no_hops, has_no_plan,
}
use kubernetes_upgrade_opera.Upgrade.Lawful.{Shown, StartsAt, guards_of, Lawful}

-- Where a reconcile goes on, it does with the upgrade as it was but for its status, and with a plan
-- as the course has it.
abbrev pub Onward : Semver → UpgradeEnv → KubernetesUpgrade → Planned → Type 0
Onward S env ku ended = Unit
Onward S env ku (going ku') =
    (status : KubernetesUpgradeStatus) × (ku' ≡ record ku { status = status })
    × Planning S ku.spec (guards_of S env ku) (course ku.status) (course status)

first_of_or : (a b : Bool) → (a || b) ≡ true → (a ≡ true) ⊎ (b ≡ true)
first_of_or true b h = inl refl
first_of_or false b h = inr h

no_steps :
    (steps : List UpgradeStep) → elim steps [ [] ↦ true | s ∷ rest ↦ false ] ≡ true → steps ≡ []
no_steps [] h = refl
no_steps (s ∷ steps) h = absurd cc

needs_plan-bare :
    (ku : KubernetesUpgrade)
    → needs_plan ku ≡ true
    → (ku.status.starting_version ≡ "") ⊎ (ku.status.step_plan ≡ [])
unfolding needs_plan
needs_plan-bare ku h = elim (first_of_or (str_eq ku.status.starting_version "") _ h) [
  | inl e ↦ inl ((eq_iff ku.status.starting_version "").0 e)
  | inr e ↦ inr (no_steps ku.status.step_plan e)
]

module _ (S : Semver) (env : UpgradeEnv) (ku : KubernetesUpgrade)
    (phase : ku.status.phase ≡ UpgradePhase.discovering) (nodes : List Node)
    (groups : List DiscoveredGroup) (shown : Shown env ku nodes groups) where
  store_plan-Onward :
      (starting : String) (steps : List UpgradeStep)
      → needs_plan ku ≡ true
      → StartsAt S env nodes groups starting
      → Plans S ku.spec starting steps
      → Ensures (Lawful S env ku) (store_plan S env starting steps ku) (Onward S env ku)
  unfolding store_plan
  store_plan-Onward starting [] needed known e =
      Ensures-bind _ _
        (Ensures-write_upgrade_status env _ (
          refl,
          inr (
              has_no_hops starting phase (needs_plan-bare ku needed) (nodes, groups, shown, known)
                e),
        ))
        (λ _ _. Ensures-pure ended tt)
  store_plan-Onward starting (s ∷ steps) needed known e =
      let new =
        planned starting s steps (needs_plan-bare ku needed) (nodes, groups, shown, known) e in
      Ensures-bind _ _ (Ensures-write_upgrade_status env _ (refl, inr (plans _ phase new)))
        (λ _ _. Ensures-pure _ (_, refl, inr new))

  plan_from-Onward :
      (starting : String) (r : Result (List UpgradeStep))
      → needs_plan ku ≡ true
      → StartsAt S env nodes groups starting
      → compute_step_plan S starting ku.spec.target_version (downgrade_allowed ku.spec.safety) ≡ r
      → Ensures (Lawful S env ku) (plan_from S env starting ku r) (Onward S env ku)
  unfolding plan_from
  plan_from-Onward starting (ok steps) needed known e =
      store_plan-Onward starting steps needed known e
  plan_from-Onward starting (err failure) needed known e =
      Ensures-if (is_panic failure) _ _ (Ensures-raise failure) (
        Ensures-bind _ _
          (Ensures-write_upgrade_status env _ (
            refl,
            inr (
                has_no_plan starting failure phase (needs_plan-bare ku needed)
                  (nodes, groups, shown, known) e),
          ))
          (λ _ _. Ensures-pure ended tt))

  starting_version-Lawful :
      Ensures (Lawful S env ku) (starting_version S env nodes groups) (StartsAt S env nodes groups)
  unfolding starting_version
  starting_version-Lawful = by_oldest (oldest_version_across_groups S nodes groups) refl
    where
      by_oldest :
          (r : Result String)
          → oldest_version_across_groups S nodes groups ≡ r
          → Ensures
              (Lawful S env ku)
              (elim r [
                | ok v ↦ pure v
                | err e ↦ in_context "getting apiserver version" (read_version env)
              ])
              (StartsAt S env nodes groups)
      by_oldest (ok v) e = Ensures-pure v (inl e)
      by_oldest (err failure) e =
          Ensures-in_context _ _
            (Ensures-weaken _ (λ v read. inr ((failure, e), read)) (Ensures-read_version env tt))

  pub ensure_plan-Onward :
      Ensures (Lawful S env ku) (ensure_plan S env nodes groups ku) (Onward S env ku)
  unfolding ensure_plan
  ensure_plan-Onward = by_need (needs_plan ku) refl
    where
      by_need :
          (b : Bool)
          → needs_plan ku ≡ b
          → Ensures
              (Lawful S env ku)
              (if b
                then starting_version S env nodes groups >>= (λ starting.
                  plan_from S env starting ku (
                    compute_step_plan S starting ku.spec.target_version
                      (downgrade_allowed ku.spec.safety)))
                else pure (going ku))
              (Onward S env ku)
      by_need true e =
          Ensures-bind _ _ starting_version-Lawful
            (λ starting known. plan_from-Onward starting _ e known refl)
      by_need false e = Ensures-pure _ (ku.status, refl, inl refl)
