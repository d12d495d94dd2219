-- ===== src/Upgrade/Promises.antt =====
-- What a reconcile of a cluster upgrade promises of its calls.
use mathlib.Core.List.{Memᴰ}
use kubernetes_upgrade_opera.Base.{
  String, Bool, true, false, Option, some, none, List, [], ◌≡◌, refl, ◌⊎◌, inl, inr, All-at, ℤ, pos,
  ◌&&◌, if◌then◌else◌, not,
}
use kubernetes_upgrade_opera.Core.{Node}
use kubernetes_upgrade_opera.Types.{
  Role, control_plane, worker, NodeGroupOverride, UpgradeDefaults, NodeGroupUpgrade, UpgradePhase,
  KubernetesUpgrade,
}
use kubernetes_upgrade_opera.Version.{Semver}
use kubernetes_upgrade_opera.Batches.{IntOrString}
use kubernetes_upgrade_opera.Children.Laws.{Safe, resolve_strategy-Safe}
use kubernetes_upgrade_opera.Discovery.{DiscoveredGroup}
use kubernetes_upgrade_opera.Cluster.{
  Call, History, apply_group, release_group, update_upgrade_status, upgrade_call,
}
use kubernetes_upgrade_opera.Upgrade.Calls.{UpgradeEnv}
use kubernetes_upgrade_opera.Upgrade.Child.{
  build_desired_child, desired_spec, batch_fields, force_pause, explicitly_confirmed, find_override,
}
use kubernetes_upgrade_opera.Upgrade.Discovering.Visit.{is_skipped}
use kubernetes_upgrade_opera.Upgrade.Reconcile.{reconcile_upgrade}
use kubernetes_upgrade_opera.Upgrade.Course.{course, Step}
use kubernetes_upgrade_opera.Upgrade.Lawful.{Shown, OnlyMarked, Lawful, guards_of, Released}
use kubernetes_upgrade_opera.Upgrade.Lawful.Reconcile.{reconcile_upgrade-Lawful}

-- The calls of a reconcile, the newest first.
abbrev pub calls_of : Semver → UpgradeEnv → KubernetesUpgrade → History
calls_of S env ku = (reconcile_upgrade S env ku []).1

made-Lawful :
    (S : Semver) (env : UpgradeEnv) (ku : KubernetesUpgrade) (c : Call)
    → Memᴰ c (calls_of S env ku)
    → Lawful S env ku c
made-Lawful S env ku c m =
    All-at (Lawful S env ku) _ ((reconcile_upgrade-Lawful S env ku).at [] tt).0 m

-- A reconcile stores a status in which only the conditions have changed, or one that takes a step of
-- the course, whose guards hold in the cluster as the API server shows it; and nothing but the status
-- is changed.
pub reconcile_upgrade-Step :
    (S : Semver) (env : UpgradeEnv) (ku ku' : KubernetesUpgrade)
    → Memᴰ (upgrade_call (update_upgrade_status ku')) (calls_of S env ku)
    → (ku' ≡ record ku { status = ku'.status })
      × (OnlyMarked ku ku'
          ⊎ Step S ku.spec (guards_of S env ku) (course ku.status) (course ku'.status))
reconcile_upgrade-Step S env ku ku' m = made-Lawful S env ku _ m

-- The pace of a child: a control plane takes one node at a time.
abbrev pub Pace : Role → Option ℤ × Option IntOrString → Type 0
Pace control_plane fields = fields ≡ (some (pos 1), none)
Pace worker fields = Unit

batch_fields-Pace :
    (role : Role) (override : Option NodeGroupOverride) (defaults : Option UpgradeDefaults)
    → Pace role (batch_fields role override defaults)
unfolding batch_fields
batch_fields-Pace control_plane override defaults = refl
batch_fields-Pace worker override defaults = tt

-- A child that acts on a guessed provider is paused, unless its override names a strategy.
guess_pauses :
    (heuristic confirmed asked : Bool)
    → (heuristic ≡ false)
      ⊎ (confirmed ≡ true)
      ⊎ ((if heuristic && not confirmed then true else asked) ≡ true)
guess_pauses false confirmed asked = inl refl
guess_pauses true true asked = inr (inl refl)
guess_pauses true false asked = inr (inr refl)

-- What an applied child is: that of a discovered group which no override skips, held, of a strategy
-- that its provider is safe with, at the pace of its role, and paused where its provider is a guess
-- that no override confirms.
pub record Careful (env : UpgradeEnv) (ku : KubernetesUpgrade) (ng : NodeGroupUpgrade)
    : Type 0 where
  pub discovering : ku.status.phase ≡ UpgradePhase.discovering
  pub held : ng.spec.hold ≡ true
  pub pace : Pace ng.spec.role (ng.spec.batch_size, ng.spec.max_unavailable)
  pub nodes : List Node
  pub groups : List DiscoveredGroup
  pub group : DiscoveredGroup
  pub shown : Shown env ku nodes groups
  pub discovered : Memᴰ group groups
  pub taken : is_skipped (find_override ku.spec.group_overrides group.name) ≡ false
  pub members : ng.spec.nodes ≡ group.nodes
  pub as_classified : (ng.spec.role ≡ group.role) × (ng.spec.provider ≡ group.provider)
  pub safe :
      Safe ng.spec.role ng.spec.provider
        (find_override ku.spec.group_overrides group.name)
        ng.spec.strategy
  pub confirmed :
      (group.heuristic ≡ false)
      ⊎ (explicitly_confirmed (find_override ku.spec.group_overrides group.name) ≡ true)
      ⊎ (ng.spec.paused ≡ true)

desired-Careful :
    (env : UpgradeEnv) (ku : KubernetesUpgrade) (nodes : List Node) (groups : List DiscoveredGroup)
    (group : DiscoveredGroup) (target : String)
    → Shown env ku nodes groups
    → Memᴰ group groups
    → is_skipped (find_override ku.spec.group_overrides group.name) ≡ false
    → ku.status.phase ≡ UpgradePhase.discovering
    → Careful env ku (
        build_desired_child env.to_lower ku group target
          (find_override ku.spec.group_overrides group.name)
          ku.spec.defaults)
unfolding build_desired_child desired_spec force_pause
desired-Careful env ku nodes groups group target shown m taken phase =
    let override = find_override ku.spec.group_overrides group.name in
    record {
      discovering = phase;
      held = refl;
      pace = batch_fields-Pace group.role override ku.spec.defaults;
      nodes = nodes;
      groups = groups;
      group = group;
      shown = shown;
      discovered = m;
      taken = taken;
      members = refl;
      as_classified = (refl, refl);
      safe = resolve_strategy-Safe group override;
      confirmed = guess_pauses group.heuristic (explicitly_confirmed override) _;
    }

-- A reconcile applies a child only in Discovering, and only for a group that the code discovers among
-- the nodes which the API server listed, and that no override skips. Each is held, has the role, the
-- provider and the nodes of its group, a strategy that is safe for its role and provider, one node at a time in a control plane, and is
-- paused where its provider is a guess that no override of the group confirms by a strategy.
pub reconcile_upgrade-Careful :
    (S : Semver) (env : UpgradeEnv) (ku : KubernetesUpgrade) (ng : NodeGroupUpgrade)
    → Memᴰ (upgrade_call (apply_group ng)) (calls_of S env ku)
    → Careful env ku ng
reconcile_upgrade-Careful S env ku ng m =
    let (phase, (nodes, groups, group, target, shown, found_there, taken, e)) =
      made-Lawful S env ku _ m in
    rw e (desired-Careful env ku nodes groups group target shown found_there taken phase)

-- A reconcile clears the hold of a worker only in WorkersUpgrade, and else only, in
-- ControlPlaneUpgrade, that of the child with the control plane's name.
pub reconcile_upgrade-Released :
    (S : Semver) (env : UpgradeEnv) (ku : KubernetesUpgrade) (ng : NodeGroupUpgrade)
    → Memᴰ (upgrade_call (release_group ng)) (calls_of S env ku)
    → Released env ku ng
reconcile_upgrade-Released S env ku ng m = made-Lawful S env ku _ m
