-- ===== src/Upgrade/Child.antt =====
-- kubernetesupgrade_discovering.go: the node group that an upgrade wants for a discovered group.
use Prim.Native.String.{[] as end, ◌∷◌ as ◌then◌, ◌++◌}
use kubernetes_upgrade_opera.Base.{
  ℕ, zero, suc, ℤ, pos, String, str_eq, Bool, true, false, not, ◌&&◌, Option, none, some, List, [],
  ◌∷◌, if◌then◌else◌,
}
use kubernetes_upgrade_opera.Batches.{IntOrString}
use kubernetes_upgrade_opera.Types.{
  Role, control_plane, worker, empty, DrainPolicy, GroupPhase, NodeGroupUpgradeSpec,
  NodeGroupUpgradeStatus, NodeGroupUpgrade, UpgradeDefaults, NodeGroupOverride, KubernetesUpgrade,
}
use kubernetes_upgrade_opera.Discovery.{DiscoveredGroup}
use kubernetes_upgrade_opera.Children.{resolve_strategy}

abbrev pub parent_label_key : String
parent_label_key = "upgrade.k8s-upgrade-operator/kubernetesupgrade"

abbrev pub group_label_key : String
group_label_key = "upgrade.k8s-upgrade-operator/node-group"

abbrev paused_reason_key : String
paused_reason_key = "upgrade.k8s-upgrade-operator/paused-reason"

abbrev paused_reason : String
paused_reason =
    "heuristic classification: this group's provider was guessed with low confidence (see status.discoveredGroups[].heuristic on the parent KubernetesUpgrade). Confirm intent via spec.groupOverrides[].strategy for this group, or resolve the ambiguity directly with the upgrade.k8s-upgrade-operator/provider-override annotation on the affected nodes."

unfoldable pub find_override : List NodeGroupOverride → String → Option NodeGroupOverride
find_override [] group_name = none
find_override (o ∷ overrides) group_name =
    if str_eq o.group_name group_name then some o else find_override overrides group_name

-- the first `n` characters; the names of groups are ASCII text
unfoldable pub first_characters : ℕ → String → String
first_characters zero s = end
first_characters (suc n) end = end
first_characters (suc n) (c then s) = c then first_characters n s

unfoldable pub truncate_label_value : String → String
unfolding first_characters
truncate_label_value s = first_characters 63 s

-- strings.ToLower is a parameter
unfoldable pub child_name : (String → String) → String → String → String
child_name to_lower parent_name group_name = to_lower (parent_name ++ ("-" ++ group_name))

-- the `switch` on the batch size: spec.BatchSize and spec.MaxUnavailable
abbrev pub defaults_batch : Option UpgradeDefaults → Option ℤ × Option IntOrString
defaults_batch none = (none, none)
defaults_batch (some defaults) = elim defaults.batch_size [
  | some size ↦ (some size, none)
  | none ↦ (none, defaults.max_unavailable)
]

abbrev pub override_batch :
    Option NodeGroupOverride → Option UpgradeDefaults → Option ℤ × Option IntOrString
override_batch none defaults = defaults_batch defaults
override_batch (some override) defaults = elim override.batch_size [
  | some size ↦ (some size, none)
  | none ↦ elim override.max_unavailable [
    | some unavailable ↦ (none, some unavailable)
    | none ↦ defaults_batch defaults
  ]
]

unfoldable pub batch_fields :
    Role → Option NodeGroupOverride → Option UpgradeDefaults → Option ℤ × Option IntOrString
batch_fields control_plane override defaults = (some (pos 1), none)
batch_fields worker override defaults = override_batch override defaults

-- spec.Drain; the API server fills in its defaults only where the object is stored
abbrev no_drain_policy : DrainPolicy
no_drain_policy = record {
  timeout_seconds = none;
  force = false;
  grace_period_seconds = none;
  ignore_daemon_sets = false;
  delete_empty_dir_data = false;
}

unfoldable pub drain_of : Option UpgradeDefaults → DrainPolicy
drain_of none = no_drain_policy
drain_of (some defaults) = record no_drain_policy {
  timeout_seconds = defaults.drain_timeout_seconds;
  force = elim defaults.force_drain_after_timeout [ none ↦ false | some force ↦ force ];
}

-- `override != nil && override.Strategy != nil`
unfoldable pub explicitly_confirmed : Option NodeGroupOverride → Bool
explicitly_confirmed none = false
explicitly_confirmed (some override) = elim override.strategy [ none ↦ false | some s ↦ true ]

unfoldable pub force_pause : DiscoveredGroup → Option NodeGroupOverride → Bool
unfolding explicitly_confirmed
force_pause group override = group.heuristic && not (explicitly_confirmed override)

unfoldable pub asked_pause : Option NodeGroupOverride → Bool
asked_pause none = false
asked_pause (some override) = elim override.pause [ none ↦ false | some pause ↦ pause ]

-- a status that nothing has been written to
abbrev no_status : NodeGroupUpgradeStatus
no_status = record {
  phase = GroupPhase.unset;
  observed_generation = pos 0;
  conditions = [];
  total_nodes = pos 0;
  upgraded_nodes = pos 0;
  node_progress = [];
  message = empty;
}

unfoldable pub desired_spec :
    DiscoveredGroup
    → String
    → Option NodeGroupOverride
    → Option UpgradeDefaults
    → NodeGroupUpgradeSpec
unfolding resolve_strategy batch_fields drain_of force_pause asked_pause
desired_spec group target_version override defaults = record {
  target_version = target_version;
  role = group.role;
  provider = group.provider;
  strategy = resolve_strategy group override;
  nodes = group.nodes;
  provider_ref = group.provider_ref;
  batch_size = (batch_fields group.role override defaults).0;
  max_unavailable = (batch_fields group.role override defaults).1;
  drain = drain_of defaults;
  hold = true;
  paused = if force_pause group override then true else asked_pause override;
}

module _ (to_lower : String → String) where
  unfoldable pub build_desired_child :
      KubernetesUpgrade
      → DiscoveredGroup
      → String
      → Option NodeGroupOverride
      → Option UpgradeDefaults
      → NodeGroupUpgrade
  unfolding desired_spec child_name truncate_label_value force_pause
  build_desired_child ku group target_version override defaults = record {
    name = child_name to_lower ku.name group.name;
    namespace = ku.namespace;
    labels = (parent_label_key, ku.name) ∷ (group_label_key, truncate_label_value group.name) ∷ [];
    annotations =
        if force_pause group override then (paused_reason_key, paused_reason) ∷ [] else [];
    generation = pos 0;
    spec = desired_spec group target_version override defaults;
    status = no_status;
  }
