-- ===== src/Upgrade/Discovering/Prune.antt =====
-- pruneOrphanedChildren of kubernetesupgrade_discovering.go: children without a group are deleted.
use kubernetes_upgrade_opera.Base.{String, str_eq, Option, none, some, List, [], ◌∷◌, if◌then◌else◌}
use kubernetes_upgrade_opera.Result.{ApiError, not_found, api, Result, ok, err}
use kubernetes_upgrade_opera.Core.{label_or_empty}
use kubernetes_upgrade_opera.Types.{NodeGroupUpgrade, KubernetesUpgrade}
use kubernetes_upgrade_opera.Discovery.{DiscoveredGroup}
use kubernetes_upgrade_opera.Children.{ExistingChild, prune_candidates}
use kubernetes_upgrade_opera.Cluster.{Run, pure, lift, in_context, ◌>>=◌, ◌>>◌}
use kubernetes_upgrade_opera.Upgrade.Calls.{UpgradeEnv, read_groups, remove_group}
use kubernetes_upgrade_opera.Upgrade.Child.{group_label_key}

-- the group that a child says it is for
unfoldable pub group_label : NodeGroupUpgrade → String
unfolding label_or_empty
group_label child = label_or_empty child.labels group_label_key

unfoldable pub existing_children : List NodeGroupUpgrade → List ExistingChild
unfolding group_label
existing_children [] = []
existing_children (c ∷ children) =
    record { name = group_label c; phase = c.status.phase } ∷ existing_children children

-- byGroupName[name]: a later child takes the place of an earlier one with the same label
abbrev pub later : Option NodeGroupUpgrade → Option NodeGroupUpgrade → Option NodeGroupUpgrade
later (some d) first = some d
later none first = first

unfoldable pub by_group_name : List NodeGroupUpgrade → String → Option NodeGroupUpgrade
unfolding group_label
by_group_name [] name = none
by_group_name (c ∷ children) name =
    later (by_group_name children name) (if str_eq (group_label c) name then some c else none)

-- `err != nil && !apierrors.IsNotFound(err)`
unfoldable pub deletion : Option ApiError → Result (Unit {0})
deletion none = ok tt
deletion (some not_found) = ok tt
deletion (some e) = err (api e)

module _ (env : UpgradeEnv) where
  unfoldable pub prune_child : Option NodeGroupUpgrade → Run (Unit {0})
  unfolding deletion
  prune_child none = pure tt
  prune_child (some child) = do
    reply ← remove_group env child
    in_context "pruning NodeGroupUpgrade" (lift (deletion reply))

  unfoldable pub prune_each : List NodeGroupUpgrade → List String → Run (Unit {0})
  unfolding prune_child by_group_name
  prune_each children [] = pure tt
  prune_each children (name ∷ names) = do
    prune_child (by_group_name children name)
    prune_each children names

  unfoldable pub prune_orphaned_children : KubernetesUpgrade → List DiscoveredGroup → Run (Unit {0})
  unfolding prune_each existing_children prune_candidates
  prune_orphaned_children ku groups = do
    children ←
        in_context "listing existing NodeGroupUpgrade children"
          (read_groups env ku.namespace ku.name)
    prune_each children (prune_candidates groups (existing_children children))
