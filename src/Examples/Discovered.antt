-- ===== src/Examples/Discovered.antt =====
-- Discovery and the choice of strategies on concrete inputs.
use kubernetes_upgrade_opera.Base.{
  ◌⊎◌, ◌≡◌, ◌≢◌, refl, String, Bool, true, false, Option, none, some, List, [], ◌∷◌, All,
  trim_prefix, trim_space,
}
use mathlib.Core.List.{Memᴰ}
use kubernetes_upgrade_opera.Result.{ok}
use kubernetes_upgrade_opera.Core.{Labels, LabelSelector, Node}
use kubernetes_upgrade_opera.Types.{worker, generic, replace, NodeGroupOverride, GroupPhase}
use kubernetes_upgrade_opera.Discovery.{DiscoveredGroup}
use kubernetes_upgrade_opera.Discovery.Groups.{selector_of, discover_groups, collect, finish_groups}
use kubernetes_upgrade_opera.Discovery.Groups.Partition.{
  membership, occurrences, matched, discover_groups-partition,
}
use kubernetes_upgrade_opera.Discovery.Versions.{group_current_version, member_versions}
use kubernetes_upgrade_opera.Discovery.Versions.Oldest.{AtMost, group_current_version-oldest}
use kubernetes_upgrade_opera.Children.{ExistingChild, resolve_strategy, prune_candidates}
use kubernetes_upgrade_opera.Children.Laws.{
  Safe, resolve_strategy-Safe, Deletable, prune_candidates-Deletable,
}
use kubernetes_upgrade_opera.Version.Sample.{sample, sample_laws, read_numbers, order}
use kubernetes_upgrade_opera.Version.{parse_version}
use kubernetes_upgrade_opera.Examples.Samples.{sample_node}

-- No selector is used.
abbrev no_selector : LabelSelector → Option (Labels → Bool)
no_selector s = none

abbrev nodes : List Node
nodes = sample_node "b" ∷ sample_node "a" ∷ []

abbrev group : DiscoveredGroup
group = record {
  name = "workers";
  role = worker;
  provider = generic;
  provider_ref = none;
  heuristic = false;
  nodes = "a" ∷ "b" ∷ [];
}

abbrev override : NodeGroupOverride
override = record {
  group_name = "workers";
  strategy = some replace;
  max_unavailable = none;
  batch_size = none;
  pause = none;
  skip = none;
  acknowledge_replace_risk = false;
}

abbrev found : List DiscoveredGroup
unfolding collect finish_groups
found = finish_groups (collect (λ _. true) nodes [])

selected : selector_of no_selector none ≡ ok (λ _. true)
unfolding selector_of
selected = refl

discovered : discover_groups no_selector nodes none ≡ ok found
unfolding discover_groups selector_of found
discovered = refl

discover_groups-partition_example :
    membership "a" found ≡ occurrences "a" (matched (λ _. true) nodes)
discover_groups-partition_example =
    discover_groups-partition no_selector nodes none (λ _. true) found selected discovered "a"

abbrev target : String
target = "v1.30.0"

oldest : group_current_version sample nodes group ≡ ok "v1.30.0"
unfolding group_current_version parse_version read_numbers trim_prefix trim_space order
oldest = refl

group_current_version-oldest_example :
    (target ≢ "")
    × Memᴰ target (member_versions sample nodes group.nodes)
    × All (λ v. (v ≡ "") ⊎ AtMost sample target v) (member_versions sample nodes group.nodes)
group_current_version-oldest_example =
    group_current_version-oldest sample sample_laws nodes group target oldest

resolve_strategy-Safe_example :
    Safe worker generic (some override) (resolve_strategy group (some override))
resolve_strategy-Safe_example = resolve_strategy-Safe group (some override)

abbrev children : List ExistingChild
children =
    record { name = "workers"; phase = GroupPhase.complete }
    ∷ record { name = "old-pool"; phase = GroupPhase.complete }
    ∷ record { name = "busy-pool"; phase = GroupPhase.draining }
    ∷ []

prune_candidates-Deletable_example :
    All (Deletable (group ∷ []) children) (prune_candidates (group ∷ []) children)
prune_candidates-Deletable_example = prune_candidates-Deletable (group ∷ []) children
