-- ===== src/Upgrade/Lawful.antt =====
-- The calls that a reconcile of a cluster upgrade may make, and on what grounds.
pub mod Planning
pub mod Discovering
pub mod Phases
pub mod Workers
pub mod Postchecks
pub mod Reconcile
use mathlib.Core.List.{Memᴰ}
use kubernetes_upgrade_opera.Base.{
  String, Bool, true, false, List, All, ◌≡◌, ◌≢◌, ◌⊎◌, some, Ordering,
}
use kubernetes_upgrade_opera.Types.{
  control_plane, worker, GroupPhase, NodeGroupUpgrade, UpgradePhase, KubernetesUpgradeStatus,
  KubernetesUpgrade,
}
use kubernetes_upgrade_opera.Version.{Semver, compare_versions}
use kubernetes_upgrade_opera.Result.{Error, not_found, ok, err}
use kubernetes_upgrade_opera.Core.{Node}
use text.Mathlib.Text.{is_lt}
use kubernetes_upgrade_opera.Discovery.Groups.{discover_groups}
use kubernetes_upgrade_opera.Discovery.Versions.{
  group_current_version, oldest_version_across_groups,
}
use kubernetes_upgrade_opera.Discovery.{DiscoveredGroup, control_plane_group_name}
use kubernetes_upgrade_opera.Cluster.{
  Call, read_clock, UpgradeCall, list_nodes, ask_version, get_lease, create_lease, update_lease,
  delete_lease, get_group, list_groups, apply_group, release_group, delete_group, update_upgrade,
  update_upgrade_status, upgrade_call, History, Answer, found, refused,
}
use kubernetes_upgrade_opera.Upgrade.Calls.{UpgradeEnv}
use kubernetes_upgrade_opera.Upgrade.Child.{find_override, build_desired_child, child_name}
use kubernetes_upgrade_opera.Upgrade.Discovering.Visit.{is_skipped}
use kubernetes_upgrade_opera.Upgrade.Phases.{all_ready, without_hold}
use kubernetes_upgrade_opera.Upgrade.Lease.Laws.{OnLease}
use kubernetes_upgrade_opera.Upgrade.Reconcile.{holder_id}
use kubernetes_upgrade_opera.Upgrade.Course.{course, Guards, Step}

-- A child as the code goes on with it, when its hold has been cleared.
abbrev pub Current : UpgradeEnv → NodeGroupUpgrade → NodeGroupUpgrade → Type 0
Current env child now =
    ((child.spec.hold ≡ false) × (now ≡ child))
    ⊎ ((h : History) × (env.released h (without_hold child) ≡ found now))

abbrev pub ControlPlaneChild : UpgradeEnv → KubernetesUpgrade → Answer NodeGroupUpgrade → Type 0
ControlPlaneChild env ku a =
    (h : History) × (env.group_at h ku.namespace
        (child_name env.to_lower ku.name control_plane_group_name)
      ≡ a)

abbrev pub Children : UpgradeEnv → KubernetesUpgrade → List NodeGroupUpgrade → Type 0
Children env ku children = (h : History) × (env.groups_of h ku.namespace ku.name ≡ found children)

-- A worker is in the phase when its hold has been cleared.
abbrev pub WorkerIn : UpgradeEnv → GroupPhase → NodeGroupUpgrade → Type 0
WorkerIn env phase child =
    (child.spec.role ≡ worker)
    × ((now : NodeGroupUpgrade) × Current env child now × (now.status.phase ≡ phase))

abbrev pub WorkerDone : UpgradeEnv → NodeGroupUpgrade → Type 0
WorkerDone env child = (child.spec.role ≡ control_plane) ⊎ WorkerIn env GroupPhase.complete child

abbrev pub AllReady : UpgradeEnv → List Node → Type 0
AllReady env nodes =
    ((h : History) × (env.cluster_nodes h ≡ found nodes)) × (all_ready nodes ≡ true)

-- The groups that the code discovers among the nodes as the API server shows them.
abbrev pub Shown : UpgradeEnv → KubernetesUpgrade → List Node → List DiscoveredGroup → Type 0
Shown env ku nodes groups =
    ((h : History) × (env.cluster_nodes h ≡ found nodes))
    × (discover_groups env.parse_selector nodes ku.spec.scope ≡ ok groups)

-- The oldest version of the groups, or where there is none the API server's.
abbrev pub StartsAt : Semver → UpgradeEnv → List Node → List DiscoveredGroup → String → Type 0
StartsAt S env nodes groups starting =
    (oldest_version_across_groups S nodes groups ≡ ok starting)
    ⊎ (((e : Error) × (oldest_version_across_groups S nodes groups ≡ err e))
        × ((h : History) × (env.git_version h ≡ some starting)))

-- The oldest version of the group is read, and it is that far along.
abbrev pub Compared : Semver → List Node → String → Bool → DiscoveredGroup → Type 0
Compared S nodes target behind group =
    (current : String) × (o : Ordering) × (group_current_version S nodes group ≡ ok current)
    × (compare_versions S current target ≡ ok o)
    × (is_lt o ≡ behind)

-- What the guards of the course are in the cluster.
abbrev pub guards_of : Semver → UpgradeEnv → KubernetesUpgrade → Guards
guards_of S env ku = record {
  starts_at = λ starting.
      (nodes : List Node) × (groups : List DiscoveredGroup) × Shown env ku nodes groups
      × StartsAt S env nodes groups starting;
  nodes_ready = (nodes : List Node) × AllReady env nodes;
  no_control_plane = All (λ g. g.role ≡ worker) ku.status.discovered_groups;
  control_plane_ended =
      ControlPlaneChild env ku (refused not_found)
      ⊎ ((child : NodeGroupUpgrade) × (now : NodeGroupUpgrade) × ControlPlaneChild env ku
            (found child)
          × Current env child now
          × (now.status.phase ≡ GroupPhase.complete));
  control_plane_at_work =
      (child : NodeGroupUpgrade) × (now : NodeGroupUpgrade) × ControlPlaneChild env ku (found child)
      × Current env child now
      × (now.status.phase ≢ GroupPhase.complete)
      × (now.status.phase ≢ GroupPhase.failed);
  workers_ended =
      (children : List NodeGroupUpgrade) × Children env ku children × All (WorkerDone env) children;
  group_failed =
      ((child : NodeGroupUpgrade) × (now : NodeGroupUpgrade) × ControlPlaneChild env ku
          (found child)
        × Current env child now
        × (now.status.phase ≡ GroupPhase.failed))
      ⊎ ((children : List NodeGroupUpgrade) × (child : NodeGroupUpgrade) × Children env ku children
          × Memᴰ child children
          × WorkerIn env GroupPhase.failed child);
  lagging = λ target.
      (nodes : List Node) × (groups : List DiscoveredGroup) × (group : DiscoveredGroup) × AllReady
        env nodes
      × (discover_groups env.parse_selector nodes ku.spec.scope ≡ ok groups)
      × Memᴰ group groups
      × Compared S nodes target true group;
  hop_reached = λ target.
      (nodes : List Node) × (groups : List DiscoveredGroup) × AllReady env nodes
      × (discover_groups env.parse_selector nodes ku.spec.scope ≡ ok groups)
      × All (Compared S nodes target false) groups;
}

-- A status update in which only the conditions have changed.
abbrev pub OnlyMarked : KubernetesUpgrade → KubernetesUpgrade → Type 0
OnlyMarked ku ku' =
    ku' ≡ record ku { status = record ku.status { conditions = ku'.status.conditions } }

-- A status update changes nothing but the status, and takes one step of the course unless only the
-- conditions have changed.
abbrev pub Advances : Semver → UpgradeEnv → KubernetesUpgrade → KubernetesUpgrade → Type 0
Advances S env ku ku' =
    (ku' ≡ record ku { status = ku'.status })
    × (OnlyMarked ku ku'
        ⊎ Step S ku.spec (guards_of S env ku) (course ku.status) (course ku'.status))

-- An applied group is the desired child of a discovered group that is not skipped, with some target.
abbrev pub Desired : UpgradeEnv → KubernetesUpgrade → NodeGroupUpgrade → Type 0
Desired env ku ng =
    (nodes : List Node) × (groups : List DiscoveredGroup) × (group : DiscoveredGroup)
    × (target : String) × Shown env ku nodes groups
    × Memᴰ group groups
    × (is_skipped (find_override ku.spec.group_overrides group.name) ≡ false)
    × (ng
        ≡ build_desired_child env.to_lower ku group target
            (find_override ku.spec.group_overrides group.name) ku.spec.defaults)

-- The control plane's child is released in its own phase, and a listed worker in WorkersUpgrade.
abbrev pub Released : UpgradeEnv → KubernetesUpgrade → NodeGroupUpgrade → Type 0
Released env ku ng =
    ((ku.status.phase ≡ UpgradePhase.workers_upgrade) × (ng.spec.role ≡ worker))
    ⊎ ((ku.status.phase ≡ UpgradePhase.control_plane_upgrade)
        × ((child : NodeGroupUpgrade) × ControlPlaneChild env ku (found child)
            × (ng ≡ without_hold child)))

-- A deleted group was listed as a child.
abbrev pub Listed : UpgradeEnv → KubernetesUpgrade → NodeGroupUpgrade → Type 0
Listed env ku ng = (children : List NodeGroupUpgrade) × Children env ku children × Memᴰ ng children

abbrev pub LawfulWrite : Semver → UpgradeEnv → KubernetesUpgrade → UpgradeCall → Type 0
LawfulWrite S env ku (apply_group ng) =
    (ku.status.phase ≡ UpgradePhase.discovering) × Desired env ku ng
LawfulWrite S env ku (release_group ng) = Released env ku ng
LawfulWrite S env ku (delete_group ng) =
    (ku.status.phase ≡ UpgradePhase.discovering) × Listed env ku ng
LawfulWrite S env ku (update_upgrade ku') =
    (ku'.spec ≡ ku.spec) × (course ku'.status ≡ course ku.status)
LawfulWrite S env ku (update_upgrade_status ku') = Advances S env ku ku'
LawfulWrite S env ku c = OnLease env (holder_id ku) (upgrade_call c)

-- The reads are those of the controller, and no call is one of the node group controller's.
abbrev pub Lawful : Semver → UpgradeEnv → KubernetesUpgrade → Call → Type 0
Lawful S env ku read_clock = Unit
Lawful S env ku (upgrade_call list_nodes) = Unit
Lawful S env ku (upgrade_call ask_version) = Unit
Lawful S env ku (upgrade_call (get_group namespace name)) = Unit
Lawful S env ku (upgrade_call (list_groups namespace parent)) = Unit
Lawful S env ku (upgrade_call c) = LawfulWrite S env ku c
Lawful S env ku c = ⊥
