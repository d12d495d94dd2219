-- ===== src/Discovery/Groups.antt =====
-- DiscoverGroups: the groups of a cluster's nodes.
--
-- Label selectors are those of k8s.io/apimachinery, a parameter: what a selector parses to. The map of
-- groups is a list in the order of the first nodes, since the result is sorted by the names.
pub mod Partition
use kubernetes_upgrade_opera.Base.{
  String, str_eq, text_lt, Bool, true, false, ◌||◌, Option, none, some, List, [], ◌∷◌, ◌++◌,
  if◌then◌else◌,
}
use kubernetes_upgrade_opera.Result.{Result, ok, err, parsing_node_selector, ◌>>=◌}
use kubernetes_upgrade_opera.Core.{Labels, LabelSelector, Node}
use kubernetes_upgrade_opera.Types.{Role, ProviderType, ProviderRef, UpgradeScope}
use kubernetes_upgrade_opera.Discovery.{
  DiscoveredGroup, classify_role, classify_provider, group_name,
}

abbrev new_group : String → Role → ProviderType × Option ProviderRef × Bool → Node → DiscoveredGroup
new_group name role (provider, ref, heuristic) node = record {
  name = name;
  role = role;
  provider = provider;
  provider_ref = ref;
  heuristic = heuristic;
  nodes = node.name ∷ [];
}

-- A further node of a group.
abbrev join_group : Bool → Node → DiscoveredGroup → DiscoveredGroup
join_group heuristic node g = record g {
  heuristic = g.heuristic || heuristic;
  nodes = g.nodes ++ node.name ∷ [];
}

unfoldable pub put_node :
    String
    → Role
    → ProviderType × Option ProviderRef × Bool
    → Node
    → List DiscoveredGroup
    → List DiscoveredGroup
put_node name role found node [] = new_group name role found node ∷ []
put_node name role found node (g ∷ groups) =
    let rest = put_node name role found node groups in
    if str_eq g.name name then join_group found.2 node g ∷ groups else g ∷ rest

-- the body of the loop, for a node that the selector matches
unfoldable pub add_node : List DiscoveredGroup → Node → List DiscoveredGroup
unfolding classify_role classify_provider group_name put_node
add_node groups node =
    let role = classify_role node in
    let found = classify_provider node in
    put_node (group_name role found.0 node) role found node groups

unfoldable pub collect : (Labels → Bool) → List Node → List DiscoveredGroup → List DiscoveredGroup
unfolding add_node
collect matches [] groups = groups
collect matches (node ∷ nodes) groups =
    collect matches nodes (if matches node.labels then add_node groups node else groups)

-- sort.Strings
unfoldable pub insert_name : String → List String → List String
unfolding text_lt
insert_name n [] = n ∷ []
insert_name n (m ∷ names) = if text_lt m n then m ∷ insert_name n names else n ∷ m ∷ names

unfoldable pub sort_names : List String → List String
unfolding insert_name
sort_names [] = []
sort_names (n ∷ names) = insert_name n (sort_names names)

-- sort.Slice by the names, which differ
unfoldable pub insert_group : DiscoveredGroup → List DiscoveredGroup → List DiscoveredGroup
unfolding text_lt
insert_group g [] = g ∷ []
insert_group g (h ∷ groups) =
    if text_lt h.name g.name then h ∷ insert_group g groups else g ∷ h ∷ groups

unfoldable pub finish_groups : List DiscoveredGroup → List DiscoveredGroup
unfolding insert_group sort_names
finish_groups [] = []
finish_groups (g ∷ groups) =
    insert_group (record g { nodes = sort_names g.nodes }) (finish_groups groups)

-- what `labels.Everything()` or the selector of the scope accepts
unfoldable pub selector_of :
    (LabelSelector → Option (Labels → Bool)) → Option UpgradeScope → Result (Labels → Bool)
selector_of parse none = ok (λ _. true)
selector_of parse (some scope) = elim scope.node_selector [
  | none ↦ ok (λ _. true)
  | some selector ↦ elim (parse selector) [
    | none ↦ err parsing_node_selector
    | some matches ↦ ok matches
  ]
]

-- `parse` is metav1.LabelSelectorAsSelector with (labels.Selector).Matches; `none` is its error
unfoldable pub discover_groups :
    (LabelSelector → Option (Labels → Bool))
    → List Node
    → Option UpgradeScope
    → Result (List DiscoveredGroup)
unfolding selector_of collect finish_groups
discover_groups parse nodes scope = do
  matches ← selector_of parse scope
  ok (finish_groups (collect matches nodes []))
