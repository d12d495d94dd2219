-- ===== src/Discovery/Groups/Partition.antt =====
-- DiscoverGroups of pkg/upgrade/discovery.go: the members of the groups against the nodes.
use kubernetes_upgrade_opera.Base.{
  ℕ, suc, ◌+◌, String, str_eq, ◌≡◌, refl, ◌∙◌, Bool, Option, List, [], ◌∷◌, ◌++◌, if◌then◌else◌,
  arith, Bool-cases, inl, inr, ap,
}
use kubernetes_upgrade_opera.Result.{ok}
use kubernetes_upgrade_opera.Core.{Labels, LabelSelector, Node}
use kubernetes_upgrade_opera.Types.{Role, ProviderType, ProviderRef, UpgradeScope}
use kubernetes_upgrade_opera.Discovery.{
  DiscoveredGroup, classify_role, classify_provider, group_name,
}
use kubernetes_upgrade_opera.Discovery.Groups.{
  put_node, add_node, collect, insert_name, sort_names, insert_group, finish_groups, selector_of,
  discover_groups,
}

-- How often a name occurs in a list.
unfoldable pub occurrences : String → List String → ℕ
occurrences n [] = 0
occurrences n (m ∷ names) = let rest = occurrences n names in if str_eq m n then suc rest else rest

-- The names of the nodes whose labels match.
unfoldable pub matched : (Labels → Bool) → List Node → List String
matched matches [] = []
matched matches (node ∷ nodes) =
    let rest = matched matches nodes in if matches node.labels then node.name ∷ rest else rest

-- How often a name occurs among the members of all groups.
unfoldable pub membership : String → List DiscoveredGroup → ℕ
unfolding occurrences
membership n [] = 0
membership n (g ∷ groups) = occurrences n g.nodes + membership n groups

occurrences-append :
    (n : String) (xs ys : List String)
    → occurrences n (xs ++ ys) ≡ occurrences n xs + occurrences n ys
unfolding occurrences
occurrences-append n [] ys = omega arith
occurrences-append n (x ∷ xs) ys = ground (arith, occurrences-append n xs ys)

occurrences-insert_name :
    (n m : String) (names : List String)
    → occurrences n (insert_name m names) ≡ occurrences n (m ∷ names)
unfolding insert_name occurrences
occurrences-insert_name n m [] = refl
occurrences-insert_name n m (k ∷ names) = ground (arith, occurrences-insert_name n m names)

occurrences-sort_names :
    (n : String) (names : List String) → occurrences n (sort_names names) ≡ occurrences n names
unfolding sort_names occurrences
occurrences-sort_names n [] = refl
occurrences-sort_names n (m ∷ names) =
    occurrences-insert_name n m (sort_names names) ∙ ground (arith, occurrences-sort_names n names)

membership-insert_group :
    (n : String) (g : DiscoveredGroup) (groups : List DiscoveredGroup)
    → membership n (insert_group g groups) ≡ occurrences n g.nodes + membership n groups
unfolding insert_group membership
membership-insert_group n g [] = refl
membership-insert_group n g (h ∷ groups) = ground (arith, membership-insert_group n g groups)

membership-finish_groups :
    (n : String) (groups : List DiscoveredGroup)
    → membership n (finish_groups groups) ≡ membership n groups
unfolding finish_groups membership
membership-finish_groups n [] = refl
membership-finish_groups n (g ∷ groups) =
    membership-insert_group n (record g { nodes = sort_names g.nodes }) (finish_groups groups)
    ∙ omega (arith, membership-finish_groups n groups, occurrences-sort_names n g.nodes)

-- A node adds its name once.
once : (n : String) (node : Node) (k : ℕ) → ℕ
once n node k = if str_eq node.name n then suc k else k

membership-put_node :
    (n name : String) (role : Role) (found : ProviderType × Option ProviderRef × Bool) (node : Node)
    (groups : List DiscoveredGroup)
    → membership n (put_node name role found node groups) ≡ once n node (membership n groups)
unfolding put_node membership occurrences once
membership-put_node n name role found node [] = ground arith
membership-put_node n name role found node (g ∷ groups) = ground (
  arith,
  membership-put_node n name role found node groups,
  occurrences-append n g.nodes (node.name ∷ []),
)

membership-collect :
    (n : String) (matches : Labels → Bool) (nodes : List Node) (groups : List DiscoveredGroup)
    → membership n (collect matches nodes groups)
      ≡ occurrences n (matched matches nodes) + membership n groups
unfolding collect matched occurrences add_node once
membership-collect n matches [] groups = omega arith
membership-collect n matches (node ∷ nodes) groups = elim (Bool-cases (matches node.labels)) [
  | inl fits ↦ rw fits (
      membership-collect n matches nodes (add_node groups node)
      ∙ ground (
        arith,
        membership-put_node n (group_name (classify_role node) (classify_provider node).0 node)
            (classify_role node) (classify_provider node) node groups,
      ))
  | inr fails ↦ rw fails (membership-collect n matches nodes groups)
]

returned :
    {found : List DiscoveredGroup} (groups : List DiscoveredGroup)
    → ok found ≡ ok groups
    → groups ≡ found
returned groups e = cc

-- Whatever the selectors mean, the groups that DiscoverGroups returns partition the nodes that the
-- scope's selector matches: each name occurs among the members of all groups exactly as often as
-- among those nodes. Where there is no selector, these are all nodes.
pub discover_groups-partition :
    (parse : LabelSelector → Option (Labels → Bool)) (nodes : List Node)
    (scope : Option UpgradeScope) (matches : Labels → Bool) (groups : List DiscoveredGroup)
    → selector_of parse scope ≡ ok matches
    → discover_groups parse nodes scope ≡ ok groups
    → (n : String) → membership n groups ≡ occurrences n (matched matches nodes)
unfolding discover_groups
discover_groups-partition parse nodes scope matches groups selected found n =
    ap (membership n) (returned groups (rw selected at found))
    ∙ membership-finish_groups n (collect matches nodes [])
    ∙ membership-collect n matches nodes []
    ∙ unfold membership in omega arith
