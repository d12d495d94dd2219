-- ===== src/Upgrade/Lawful/Postchecks.antt =====
-- Postchecks.
use kubernetes_upgrade_opera.Base.{
  inr, Ordering, String, Bool, true, false, List, [], ◌∷◌, All, ◌≡◌, refl, if◌then◌else◌,
}
use kubernetes_upgrade_opera.Result.{Result, ok, err, context, ◌>>=◌ as then_result}
use kubernetes_upgrade_opera.Core.{Time, Node}
use kubernetes_upgrade_opera.Types.{UpgradePhase, KubernetesUpgrade}
use kubernetes_upgrade_opera.Version.{Semver, compare_versions}
use kubernetes_upgrade_opera.Cluster.{History, found, pure, ◌>>◌}
use kubernetes_upgrade_opera.Cluster.Rules.{
  Any, ended_as, Post, Ensures, Ensures-pure, Ensures-lift, Ensures-in_context, Ensures-bind,
}
use kubernetes_upgrade_opera.NodeGroup.Draining.{done, requeue, requeue_after}
use kubernetes_upgrade_opera.Upgrade.Calls.{UpgradeEnv, write_upgrade_status}
use kubernetes_upgrade_opera.Upgrade.Calls.Rules.{
  Ensures-read_nodes, Ensures-read_time, Ensures-write_upgrade_status,
}
use kubernetes_upgrade_opera.Upgrade.Status.{step_at}
use kubernetes_upgrade_opera.Upgrade.Phases.{all_ready}
use kubernetes_upgrade_opera.Upgrade.Postchecks.{
  is_lagging, next_step, finished_upgrade, complete_step, with_steps, has_next_step, any_lagging,
  close_step, end_step, check_groups, reconcile_postchecks,
}
use kubernetes_upgrade_opera.Upgrade.Course.{repeats, advances, finishes}
use kubernetes_upgrade_opera.Upgrade.Lawful.{AllReady, guards_of, Lawful}
use kubernetes_upgrade_opera.Upgrade.Lawful.Phases.{move_on-Lawful}
use kubernetes_upgrade_opera.Upgrade.Lawful.{Compared}
use mathlib.Core.List.{Memᴰ}
use mathlib.Core.List.Memᴰ.{head, tail}
use text.Mathlib.Text.{is_lt}
use kubernetes_upgrade_opera.StepPlan.{UpgradeStep}
use kubernetes_upgrade_opera.Discovery.{DiscoveredGroup}
use kubernetes_upgrade_opera.Discovery.Groups.{discover_groups}
use kubernetes_upgrade_opera.Discovery.Versions.{group_current_version}

-- What the loop over the groups finds.
abbrev Lagging : Semver → List Node → String → List DiscoveredGroup → Bool → Type 0
Lagging S nodes target groups true =
    (group : DiscoveredGroup) × Memᴰ group groups × Compared S nodes target true group
Lagging S nodes target groups false = All (Compared S nodes target false) groups

module _ (S : Semver) (nodes : List Node) (target : String) where
  is_lagging-Compared :
      (group : DiscoveredGroup)
      → Post (λ b. Compared S nodes target b group) (is_lagging S nodes target group)
  unfolding is_lagging
  is_lagging-Compared group = by_version (group_current_version S nodes group) refl
    where
      by_order :
          (current : String) (r : Result Ordering)
          → group_current_version S nodes group ≡ ok current
          → compare_versions S current target ≡ r
          → Post
              (λ b. Compared S nodes target b group)
              (then_result (context "comparing versions for group" r) (λ o. ok (is_lt o)))
      by_order current (ok o) e f = (current, o, e, f, refl)
      by_order current (err failure) e f = tt

      by_version :
          (r : Result String)
          → group_current_version S nodes group ≡ r
          → Post
              (λ b. Compared S nodes target b group)
              (then_result (context "determining current version for group" r) (λ current.
                then_result
                  (context "comparing versions for group" (compare_versions S current target))
                  (λ o. ok (is_lt o))))
      by_version (ok current) e = by_order current (compare_versions S current target) e refl
      by_version (err failure) e = tt

  Lagging-behind :
      (group : DiscoveredGroup) (groups : List DiscoveredGroup) (b : Bool)
      → Lagging S nodes target groups b
      → Compared S nodes target false group
      → Lagging S nodes target (group ∷ groups) b
  Lagging-behind group groups true (g, m, c) first = (g, tail m, c)
  Lagging-behind group groups false all first = (first, all)

  Lagging-both :
      (group : DiscoveredGroup) (groups : List DiscoveredGroup) (lags : Result Bool)
      (rest : Result Bool)
      → Post (λ b. Compared S nodes target b group) lags
      → Post (Lagging S nodes target groups) rest
      → Post
          (Lagging S nodes target (group ∷ groups))
          (then_result lags (λ b. if b then ok true else rest))
  Lagging-both group groups (ok true) rest c p = (group, head refl, c)
  Lagging-both group groups (ok false) (ok b) c p = Lagging-behind group groups b p c
  Lagging-both group groups (ok false) (err e) c p = tt
  Lagging-both group groups (err e) rest c p = tt

  any_lagging-Lagging :
      (groups : List DiscoveredGroup)
      → Post (Lagging S nodes target groups) (any_lagging S nodes target groups)
  unfolding any_lagging
  any_lagging-Lagging [] = tt
  any_lagging-Lagging (group ∷ groups) =
      Lagging-both group groups _ _ (is_lagging-Compared group) (any_lagging-Lagging groups)

module _ (S : Semver) (env : UpgradeEnv) (ku : KubernetesUpgrade)
    (phase : ku.status.phase ≡ UpgradePhase.postchecks) (hop : UpgradeStep)
    (at : step_at ku.status.step_plan ku.status.current_step_index ≡ ok hop) where
  close_step-Lawful :
      (t : Time)
      → (guards_of S env ku).hop_reached hop.to_version
      → Ensures
          (Lawful S env ku)
          (close_step S env
            (with_steps (complete_step t ku.status.current_step_index ku.status.step_plan) ku))
          Any
  unfolding close_step next_step finished_upgrade has_next_step
  close_step-Lawful t reached = by_next _ refl
    where
      by_next :
          (b : Bool)
          → has_next_step
              (with_steps (complete_step t ku.status.current_step_index ku.status.step_plan) ku)
            ≡ b
          → Ensures
              (Lawful S env ku)
              (if b
                then write_upgrade_status env (
                    next_step (
                      with_steps
                        (complete_step t ku.status.current_step_index ku.status.step_plan)
                        ku))
                  >> pure requeue
                else write_upgrade_status env (
                    finished_upgrade (
                      with_steps
                        (complete_step t ku.status.current_step_index ku.status.step_plan)
                        ku))
                  >> pure done)
              Any
      by_next true e =
          Ensures-bind _ _
            (Ensures-write_upgrade_status env _ (refl, inr (advances t hop phase at reached e)))
            (λ _ _. Ensures-pure _ tt)
      by_next false e =
          Ensures-bind _ _
            (Ensures-write_upgrade_status env _ (refl, inr (finishes t hop phase at reached e)))
            (λ _ _. Ensures-pure _ tt)

  end_step-Lawful :
      (nodes : List Node) (groups : List DiscoveredGroup) (lagging : Bool)
      → AllReady env nodes
      → discover_groups env.parse_selector nodes ku.spec.scope ≡ ok groups
      → Lagging S nodes hop.to_version groups lagging
      → Ensures (Lawful S env ku) (end_step S env ku lagging) Any
  unfolding end_step
  end_step-Lawful nodes groups true ready e (group, m, c) =
      move_on-Lawful S env ku _ ku.status
        (repeats hop phase at (nodes, groups, group, ready, e, m, c))
  end_step-Lawful nodes groups false ready e all =
      Ensures-bind _ _ (Ensures-read_time env tt)
        (λ t _. close_step-Lawful t (nodes, groups, ready, e, all))

module _ (S : Semver) (env : UpgradeEnv) (ku : KubernetesUpgrade)
    (phase : ku.status.phase ≡ UpgradePhase.postchecks) where
  check_groups-Lawful :
      (nodes : List Node)
      → AllReady env nodes
      → Ensures (Lawful S env ku) (check_groups S env ku nodes) Any
  unfolding check_groups
  check_groups-Lawful nodes ready = Ensures-bind _ _ (Ensures-lift _ (ended_as _)) (λ hop at.
      Ensures-bind _ _
        (Ensures-in_context _ _
          (Ensures-lift _ (ended_as (discover_groups env.parse_selector nodes ku.spec.scope))))
        (λ groups e.
          Ensures-bind _ _ (Ensures-lift _ (any_lagging-Lagging S nodes hop.to_version groups))
            (λ lagging l. end_step-Lawful S env ku phase hop at nodes groups lagging ready e l)))

  pub reconcile_postchecks-Lawful : Ensures (Lawful S env ku) (reconcile_postchecks S env ku) Any
  unfolding reconcile_postchecks
  reconcile_postchecks-Lawful =
      Ensures-bind _ _ (Ensures-in_context _ _ (Ensures-read_nodes env tt))
        (λ nodes read. by_ready nodes (all_ready nodes) refl read)
    where
      by_ready :
          (nodes : List Node) (b : Bool)
          → all_ready nodes ≡ b
          → (h : History) × (env.cluster_nodes h ≡ found nodes)
          → Ensures
              (Lawful S env ku)
              (if b then check_groups S env ku nodes else pure (requeue_after 15))
              Any
      by_ready nodes true ready read = check_groups-Lawful nodes (read, ready)
      by_ready nodes false ready read = Ensures-pure _ tt
