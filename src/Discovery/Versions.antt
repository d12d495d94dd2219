-- ===== src/Discovery/Versions.antt =====
-- GroupCurrentVersion and OldestVersionAcrossGroups: the oldest kubelet version of some nodes.
pub mod Oldest
use text.Mathlib.Text.{is_lt}
use kubernetes_upgrade_opera.Base.{
  String, str_eq, Bool, true, false, List, [], ◌∷◌, if◌then◌else◌, Ordering,
}
use kubernetes_upgrade_opera.Result.{
  Error, Result, ok, err, context, no_known_version, no_group_version, ◌>>=◌,
}
use kubernetes_upgrade_opera.Core.{Node}
use kubernetes_upgrade_opera.Discovery.{DiscoveredGroup}
use kubernetes_upgrade_opera.Version.{Semver, compare_versions}

-- byName[name]; the names of nodes differ, and a missing one has the version ""
unfoldable pub version_of : List Node → String → String
version_of [] name = ""
version_of (node ∷ nodes) name =
    if str_eq node.name name then node.kubelet_version else version_of nodes name

-- `cmp < 0`: the older of the two, where the first is the newer candidate
abbrev older : String → String → Ordering → String
older v oldest o = if is_lt o then v else oldest

module _ (S : Semver) where
  -- one round: `v` is not ""
  unfoldable pub older_of : String → String → Result String
  unfolding compare_versions
  older_of v oldest =
      if str_eq oldest "" then ok v else (do o ← compare_versions S v oldest; ok (older v oldest o))

  -- the loop of GroupCurrentVersion over the versions of the members
  unfoldable pub oldest_in : List String → String → Result String
  unfolding older_of
  oldest_in [] oldest = ok oldest
  oldest_in (v ∷ versions) oldest =
      let same = oldest_in versions oldest in
      if str_eq v "" then same else (do next ← older_of v oldest; oldest_in versions next)

  unfoldable pub member_versions : List Node → List String → List String
  unfolding version_of
  member_versions nodes [] = []
  member_versions nodes (name ∷ names) = version_of nodes name ∷ member_versions nodes names

  -- the check behind a loop
  abbrev known : Error → String → Result String
  known e oldest = if str_eq oldest "" then err e else ok oldest

  unfoldable pub group_current_version : List Node → DiscoveredGroup → Result String
  unfolding oldest_in member_versions
  group_current_version nodes group = do
    oldest ←
        context "comparing versions for group" (oldest_in (member_versions nodes group.nodes) "")
    known (no_known_version group.name) oldest

  -- the loop of OldestVersionAcrossGroups; a group without a version is passed over
  unfoldable pub group_versions : List Node → List DiscoveredGroup → List String
  unfolding group_current_version
  group_versions nodes [] = []
  group_versions nodes (g ∷ groups) = elim (group_current_version nodes g) [
    | ok v ↦ v ∷ group_versions nodes groups
    | err e ↦ group_versions nodes groups
  ]

  unfoldable pub oldest_version_across_groups : List Node → List DiscoveredGroup → Result String
  unfolding oldest_in group_versions
  oldest_version_across_groups nodes groups = do
    oldest ← context "comparing versions across groups" (oldest_in (group_versions nodes groups) "")
    known no_group_version oldest
