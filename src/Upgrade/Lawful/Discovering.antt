-- ===== src/Upgrade/Lawful/Discovering.antt =====
-- The children that Discovering applies and deletes, and its last status.
use mathlib.Core.List.{Memᴰ}
use mathlib.Core.List.Memᴰ.{head, tail}
use kubernetes_upgrade_opera.Base.{
  inr, String, str_eq, Bool, true, false, Option, none, some, List, [], ◌∷◌, ◌≡◌, refl,
  if◌then◌else◌,
}
use kubernetes_upgrade_opera.Core.{Node}
use kubernetes_upgrade_opera.Types.{
  NodeGroupUpgrade, UpgradePhase, KubernetesUpgradeStatus, KubernetesUpgrade,
}
use kubernetes_upgrade_opera.Version.{Semver}
use kubernetes_upgrade_opera.StepPlan.{next_group_target}
use kubernetes_upgrade_opera.Discovery.{DiscoveredGroup}
use kubernetes_upgrade_opera.Discovery.Groups.{discover_groups}
use kubernetes_upgrade_opera.Discovery.Versions.{group_current_version}
use kubernetes_upgrade_opera.Cluster.{History, found}
use kubernetes_upgrade_opera.Cluster.Rules.{
  Any, anything, ended_as, Ensures, Ensures-pure, Ensures-lift, Ensures-if_known,
  Ensures-in_context, Ensures-bind,
}
use kubernetes_upgrade_opera.Upgrade.Calls.{UpgradeEnv}
use kubernetes_upgrade_opera.Upgrade.Calls.Rules.{
  Ensures-read_nodes, Ensures-read_groups, Ensures-write_group, Ensures-remove_group,
  Ensures-write_upgrade_status,
}
use kubernetes_upgrade_opera.Upgrade.Status.{step_at}
use kubernetes_upgrade_opera.Upgrade.Child.{find_override, build_desired_child}
use kubernetes_upgrade_opera.Upgrade.Discovering.Planning.{Planned, ended, going}
use kubernetes_upgrade_opera.Upgrade.Discovering.Visit.{
  is_skipped, Tally, group_target, apply_child, visit_child, visit_group, visit_groups,
}
use kubernetes_upgrade_opera.Upgrade.Discovering.Prune.{
  group_label, by_group_name, later, deletion, prune_child, prune_each, prune_orphaned_children,
}
use kubernetes_upgrade_opera.Upgrade.Discovering.{
  discovered_upgrade, apply_children, reconcile_discovering,
}
use kubernetes_upgrade_opera.Upgrade.Course.{course, Planning, discovers}
use kubernetes_upgrade_opera.Upgrade.Lawful.{Desired, Shown, guards_of, Lawful}
use kubernetes_upgrade_opera.Upgrade.Lawful.Planning.{Onward, ensure_plan-Onward}

-- What is found under a name is one of the children.
OneOf : List NodeGroupUpgrade → Option NodeGroupUpgrade → Type 0
OneOf children none = Unit
OneOf children (some child) = Memᴰ child children

OneOf-tail :
    (c : NodeGroupUpgrade) (children : List NodeGroupUpgrade) (o : Option NodeGroupUpgrade)
    → OneOf children o
    → OneOf (c ∷ children) o
unfolding OneOf
OneOf-tail c children none m = tt
OneOf-tail c children (some d) m = tail m

OneOf-first :
    (c : NodeGroupUpgrade) (children : List NodeGroupUpgrade) (b : Bool)
    → OneOf (c ∷ children) (if b then some c else none)
unfolding OneOf
OneOf-first c children true = head refl
OneOf-first c children false = tt

OneOf-later :
    (children : List NodeGroupUpgrade) (o p : Option NodeGroupUpgrade)
    → OneOf children o
    → OneOf children p
    → OneOf children (later o p)
OneOf-later children (some d) p m n = m
OneOf-later children none p m n = n

by_group_name-OneOf :
    (children : List NodeGroupUpgrade) (name : String)
    → OneOf children (by_group_name children name)
unfolding by_group_name OneOf
by_group_name-OneOf [] name = tt
by_group_name-OneOf (c ∷ children) name =
    OneOf-later (c ∷ children) (by_group_name children name) _
      (OneOf-tail c children _ (by_group_name-OneOf children name))
      (OneOf-first c children (str_eq (group_label c) name))

module _ (S : Semver) (env : UpgradeEnv) (ku : KubernetesUpgrade)
    (phase : ku.status.phase ≡ UpgradePhase.discovering) where
  apply_child-Lawful :
      (group : DiscoveredGroup) (child : NodeGroupUpgrade)
      → Desired env ku child
      → (status : KubernetesUpgradeStatus)
      → Ensures
          (Lawful S env ku)
          (apply_child S env (record ku { status = status }) group child)
          Any
  unfolding apply_child
  apply_child-Lawful group child desired status =
      Ensures-bind _ _ (Ensures-in_context _ _ (Ensures-lift _ (anything _))) (λ _ _.
        Ensures-bind _ _ (Ensures-in_context _ _ (Ensures-write_group env child (phase, desired)))
          (λ stored _. Ensures-pure _ tt))

  group_target-Lawful :
      (nodes : List Node) (hop_target : String) (group : DiscoveredGroup)
      → Ensures (Lawful S env ku) (group_target S env nodes hop_target group) Any
  unfolding group_target
  group_target-Lawful nodes hop_target group =
      Ensures-bind _ _
        (Ensures-in_context _ _ (Ensures-lift _ (anything (group_current_version S nodes group))))
        (λ current _.
          Ensures-in_context _ _
            (Ensures-lift _ (anything (next_group_target S current hop_target))))

  visit_group-Lawful :
      (status : KubernetesUpgradeStatus) (nodes : List Node) (groups : List DiscoveredGroup)
      (hop_target : String) (group : DiscoveredGroup) (tally : Tally)
      → Shown env ku nodes groups
      → Memᴰ group groups
      → Ensures
          (Lawful S env ku)
          (visit_group S env nodes (record ku { status = status }) hop_target group tally)
          Any
  unfolding visit_group visit_child
  visit_group-Lawful status nodes groups hop_target group tally shown m =
      Ensures-if_known (is_skipped (find_override ku.spec.group_overrides group.name)) _ _
        (λ _. Ensures-pure tally tt)
        (λ taken. Ensures-bind _ _ (group_target-Lawful nodes hop_target group) (λ target _.
          Ensures-bind _ _
            (apply_child-Lawful group
              (build_desired_child env.to_lower ku group target
                (find_override ku.spec.group_overrides group.name) ku.spec.defaults)
              (nodes, groups, group, target, shown, m, taken, refl) status)
            (λ entry _. Ensures-pure _ tt)))

  visit_groups-Lawful :
      (status : KubernetesUpgradeStatus) (nodes : List Node) (groups : List DiscoveredGroup)
      (hop_target : String) (left : List DiscoveredGroup) (tally : Tally)
      → Shown env ku nodes groups
      → ((g : DiscoveredGroup) → Memᴰ g left → Memᴰ g groups)
      → Ensures
          (Lawful S env ku)
          (visit_groups S env nodes (record ku { status = status }) hop_target left tally)
          Any
  unfolding visit_groups
  visit_groups-Lawful status nodes groups hop_target [] tally shown sub = Ensures-pure tally tt
  visit_groups-Lawful status nodes groups hop_target (group ∷ left) tally shown sub =
      Ensures-bind _ _
        (visit_group-Lawful status nodes groups hop_target group tally shown
          (sub group (head refl)))
        (λ next _.
          visit_groups-Lawful status nodes groups hop_target left next shown
            (λ g m. sub g (tail m)))

  prune_child-Lawful :
      (children : List NodeGroupUpgrade) (o : Option NodeGroupUpgrade)
      → (h : History) × (env.groups_of h ku.namespace ku.name ≡ found children)
      → OneOf children o
      → Ensures (Lawful S env ku) (prune_child env o) Any
  unfolding prune_child OneOf
  prune_child-Lawful children none read m = Ensures-pure tt tt
  prune_child-Lawful children (some child) read m =
      Ensures-bind _ _ (Ensures-remove_group env child (phase, (children, read, m)))
        (λ reply _. Ensures-in_context _ _ (Ensures-lift _ (anything (deletion reply))))

  prune_each-Lawful :
      (children : List NodeGroupUpgrade) (names : List String)
      → (h : History) × (env.groups_of h ku.namespace ku.name ≡ found children)
      → Ensures (Lawful S env ku) (prune_each env children names) Any
  unfolding prune_each
  prune_each-Lawful children [] read = Ensures-pure tt tt
  prune_each-Lawful children (name ∷ names) read =
      Ensures-bind _ _ (prune_child-Lawful children _ read (by_group_name-OneOf children name))
        (λ _ _. prune_each-Lawful children names read)

  prune_orphaned_children-Lawful :
      (status : KubernetesUpgradeStatus) (groups : List DiscoveredGroup)
      → Ensures
          (Lawful S env ku)
          (prune_orphaned_children env (record ku { status = status }) groups)
          Any
  unfolding prune_orphaned_children
  prune_orphaned_children-Lawful status groups =
      Ensures-bind _ _ (Ensures-in_context _ _ (Ensures-read_groups env ku.namespace ku.name tt))
        (λ children read. prune_each-Lawful children _ read)

  apply_going :
      (status : KubernetesUpgradeStatus) (nodes : List Node) (groups : List DiscoveredGroup)
      → Shown env ku nodes groups
      → Planning S ku.spec (guards_of S env ku) (course ku.status) (course status)
      → Ensures
          (Lawful S env ku)
          (apply_children S env nodes groups (going (record ku { status = status })))
          Any
  unfolding apply_children discovered_upgrade
  apply_going status nodes groups shown new =
      Ensures-bind _ _
        (Ensures-lift _ (ended_as (step_at status.step_plan status.current_step_index)))
        (λ hop e.
          Ensures-bind _ _
            (visit_groups-Lawful status nodes groups hop.to_version groups _ shown (λ g m. m))
            (λ tally _. Ensures-bind _ _ (prune_orphaned_children-Lawful status groups) (λ _ _.
              Ensures-bind _ _
                (Ensures-write_upgrade_status env _
                  (refl, inr (discovers (course status) hop phase new e)))
                (λ _ _. Ensures-pure _ tt))))

  apply_children-Lawful :
      (nodes : List Node) (groups : List DiscoveredGroup) (p : Planned)
      → Shown env ku nodes groups
      → Onward S env ku p
      → Ensures (Lawful S env ku) (apply_children S env nodes groups p) Any
  unfolding apply_children
  apply_children-Lawful nodes groups ended shown onward = Ensures-pure _ tt
  apply_children-Lawful nodes groups (going ku') shown (status, e, new) =
      rw e (apply_going status nodes groups shown new)

  pub reconcile_discovering-Lawful : Ensures (Lawful S env ku) (reconcile_discovering S env ku) Any
  unfolding reconcile_discovering
  reconcile_discovering-Lawful =
      Ensures-bind _ _ (Ensures-in_context _ _ (Ensures-read_nodes env tt)) (λ nodes read.
        Ensures-bind _ _
          (Ensures-in_context _ _
            (Ensures-lift _ (ended_as (discover_groups env.parse_selector nodes ku.spec.scope))))
          (λ groups e.
            Ensures-bind _ _ (ensure_plan-Onward S env ku phase nodes groups (read, e))
              (λ p onward. apply_children-Lawful nodes groups p (read, e) onward)))
